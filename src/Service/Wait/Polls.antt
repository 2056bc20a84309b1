-- ===== src/Service/Wait/Polls.antt =====
-- What waitUntil does, as a relation between the states before and after.
use cluster_api_provider_cce.Prelude.{
  ℕ, zero, suc, ◌<◌, ◌≡◌, refl, Bool, true, false, ◌∷◌, if◌then◌else◌, arith,
}
use cluster_api_provider_cce.Errors.{Error, new}
use cluster_api_provider_cce.Go.{State, M, Outcome, ret, fail, panic, pure, emit, continue, ◌>>=◌}
use cluster_api_provider_cce.Go.Keeps.{
  Keeps, Keeps-bind, Keeps-if, Keeps-emit, Keeps-pure, Keeps-raise,
}
use cluster_api_provider_cce.Call.{Call}
use cluster_api_provider_cce.Service.Wait.{wait_until}

module _ {W C O : Type 0} (condition : M W (Call C) O Bool) (interval : ℕ) where
  -- The state after a pause.
  abbrev pub slept : State W (Call C) O → State W (Call C) O
  slept s = record s { trace = Call.sleep interval ∷ s.trace }

  -- `n` polls in a row said no, each followed by a pause.
  pub data Polls (s : State W (Call C) O) : ℕ → State W (Call C) O → Type 0 where
    start : Polls s zero s
    again :
        {n : ℕ} {t u : State W (Call C) O}
        → Polls s n t
        → condition t ≡ (ret false, u)
        → Polls s (suc n) (slept u)

  -- How a wait of at most `max` polls from `s` ends: with the first poll that does not say no, or
  -- with the error of the wait after `max` polls that did.
  pub data Ends (s : State W (Call C) O) (max : ℕ)
      : Outcome (Unit {0}) × State W (Call C) O → Type 0 where
    succeeds :
        (n : ℕ) (t u : State W (Call C) O)
        → n < max
        → Polls s n t
        → condition t ≡ (ret true, u)
        → Ends s max (ret tt, u)
    fails :
        (n : ℕ) (t u : State W (Call C) O) (e : Error)
        → n < max
        → Polls s n t
        → condition t ≡ (fail e, u)
        → Ends s max (fail e, u)
    panics :
        (n : ℕ) (t u : State W (Call C) O)
        → n < max
        → Polls s n t
        → condition t ≡ (panic, u)
        → Ends s max (panic, u)
    gives_up :
        (t : State W (Call C) O) → Polls s max t → Ends s max (fail (new "failed to wait"), t)

  Polls-before :
      {s u t : State W (Call C) O} {n : ℕ}
      → condition s ≡ (ret false, u)
      → Polls (slept u) n t
      → Polls s (suc n) t
  Polls-before h start = again start h
  Polls-before h (again p e) = again (Polls-before h p) e

  Ends-before :
      {s u : State W (Call C) O} {max : ℕ} {r : Outcome (Unit {0}) × State W (Call C) O}
      → condition s ≡ (ret false, u)
      → Ends (slept u) max r
      → Ends s (suc max) r
  Ends-before h (succeeds n t u l p e) = succeeds (suc n) t u (omega arith) (Polls-before h p) e
  Ends-before h (fails n t u x l p e) = fails (suc n) t u x (omega arith) (Polls-before h p) e
  Ends-before h (panics n t u l p e) = panics (suc n) t u (omega arith) (Polls-before h p) e
  Ends-before h (gives_up t p) = gives_up t (Polls-before h p)

  -- One poll, by its outcome; `rest` is the wait that is left.
  first_poll :
      (max : ℕ) (s : State W (Call C) O) (r : Outcome Bool) (u : State W (Call C) O)
      → condition s ≡ (r, u)
      → ((t : State W (Call C) O) → Ends t max (wait_until condition interval max t))
      → Ends s (suc max) (
          continue r
            (λ done.
              if done
              then pure tt
              else emit (Call.sleep interval) >>= λ _. wait_until condition interval max)
            u)
  unfolding ◌>>=◌
  first_poll max s (ret true) u h rest = succeeds zero s u (omega arith) start h
  first_poll max s (ret false) u h rest = Ends-before h (rest (slept u))
  first_poll max s (fail e) u h rest = fails zero s u e (omega arith) start h
  first_poll max s panic u h rest = panics zero s u (omega arith) start h

  -- waitUntil ends, for any condition and any number of retries: with success at the first poll that
  -- says yes, with the error or the panic of the first poll that has one, or, after as many polls as
  -- there are retries, all of which said no, with the error of the wait. Each poll that said no is
  -- followed by one pause, and there are never more polls than retries.
  pub wait_until-Ends :
      (max : ℕ) (s : State W (Call C) O) → Ends s max (wait_until condition interval max s)
  unfolding wait_until ◌>>=◌
  wait_until-Ends zero s = gives_up s start
  wait_until-Ends (suc max) s =
      first_poll max s (condition s).0 (condition s).1 refl (wait_until-Ends max)

  -- The first poll says yes; the first poll says no.
  pub wait-yes :
      (max : ℕ) (s u : State W (Call C) O)
      → condition s ≡ (ret true, u)
      → wait_until condition interval (suc max) s ≡ (ret tt, u)
  unfolding wait_until ◌>>=◌
  wait-yes max s u h = rw h refl

  pub wait-no :
      (max : ℕ) (s u : State W (Call C) O)
      → condition s ≡ (ret false, u)
      → wait_until condition interval (suc max) s ≡ wait_until condition interval max (slept u)
  unfolding wait_until ◌>>=◌
  wait-no max s u h = rw h refl

  pub Keeps-wait_until :
      {P : State W (Call C) O → Type 0}
      → Keeps P condition
      → ((s : State W (Call C) O) → P s → P (slept s))
      → (max : ℕ) → Keeps P (wait_until condition interval max)
  unfolding wait_until
  Keeps-wait_until kc ks zero = Keeps-raise _
  Keeps-wait_until kc ks (suc max) =
      let rest = Keeps-wait_until kc ks max in
      Keeps-bind condition _ kc (λ done.
        Keeps-if done _ _ (λ _. Keeps-pure tt) (λ _. Keeps-bind _ _ (Keeps-emit _ ks) (λ _. rest)))
