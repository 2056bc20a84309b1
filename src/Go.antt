-- ===== src/Go.antt =====
-- What the code uses of Go itself: error values, panics, `if err != nil`, `defer` and time.Sleep.
-- The state is the world outside (an abstract `W`), the object in memory that the code mutates (`O`),
-- and a record of the calls that left the process, the newest first. The calls are of a type `E`.
pub mod Keeps
pub mod Within
pub mod Returns
pub mod Gives
pub mod Ranks
use cluster_api_provider_cce.Prelude.{String, Bool, Option, none, some, List, ◌∷◌, true, false}
use cluster_api_provider_cce.Errors.{Error, Result, ok, err, wrapped}

pub record State (W E O : Type 0) : Type 0 where
  pub world : W
  pub obj : O
  pub trace : List E

-- A function returns a value with a nil error, returns an error, or panics.
pub data Outcome (A : Type 0) : Type 0 where
  ret : A → Outcome A
  fail : Error → Outcome A
  panic : Outcome A

-- What was written before an error or a panic stays written.
abbrev pub M : Type 0 → Type 0 → Type 0 → Type 0 → Type 0
M W E O A = State W E O → Outcome A × State W E O

abbrev pub of_result : {A : Type 0} → Result A → Outcome A
of_result (ok a) = ret a
of_result (err e) = fail e

module _ {W E O A : Type 0} where
  unfoldable pub pure : A → M W E O A
  pure a s = (ret a, s)

  unfoldable pub raise : Error → M W E O A
  raise e s = (fail e, s)

  unfoldable pub crash : M W E O A
  crash s = (panic, s)

  -- `*p`: a nil pointer panics.
  unfoldable pub deref : Option A → M W E O A
  deref none s = (panic, s)
  deref (some a) s = (ret a, s)

  -- A call of a client: the world moves on, and the call is recorded.
  unfoldable pub call : E → (W → Result A × W) → M W E O A
  call c f s = let (r, w) = f s.world in (of_result r, record s { world = w; trace = c ∷ s.trace })

  abbrev pub recover : Outcome A → (Error → M W E O A) → M W E O A
  recover (ret a) h s = (ret a, s)
  recover (fail e) h s = h e s
  recover panic h s = (panic, s)

  -- `if err != nil { h }`
  unfoldable pub catch : M W E O A → (Error → M W E O A) → M W E O A
  catch m h s = let (r, s') = m s in recover r h s'

  -- `if err != nil { return errors.Wrap(err, msg) }`
  unfoldable pub wrap : String → M W E O A → M W E O A
  unfolding catch raise
  wrap msg m = catch m (λ e. raise (wrapped msg e))

-- `x, err := m`, where the code looks at the error itself.
module _ {W E O A : Type 0} where
  abbrev pub settle_result : Outcome A → State W E O → Outcome (Result A) × State W E O
  settle_result (ret a) s = (ret (ok a), s)
  settle_result (fail e) s = (ret (err e), s)
  settle_result panic s = (panic, s)

  unfoldable pub attempt : M W E O A → M W E O (Result A)
  attempt m s = let (r, s') = m s in settle_result r s'

-- Work on another object: the one in memory is dropped afterwards, what the calls did stays.
unfoldable pub with_object : {W E O P A : Type 0} → P → M W E P A → M W E O A
with_object p m s =
    let (r, s') = m (record { world = s.world; obj = p; trace = s.trace }) in
    (r, record s { world = s'.world; trace = s'.trace })

module _ {W E O : Type 0} where
  unfoldable pub get_obj : M W E O O
  get_obj s = (ret s.obj, s)

  -- A call that gives nothing back that the code reads, such as an event or a pause.
  unfoldable pub emit : E → M W E O (Unit {0})
  emit c s = (ret tt, record s { trace = c ∷ s.trace })

  unfoldable pub modify : (O → O) → M W E O (Unit {0})
  modify f s = (ret tt, record s { obj = f s.obj })

module _ {W E O A : Type 0} where
  -- A library function that draws on the outside and cannot fail.
  unfoldable pub sample : (W → A × W) → M W E O A
  sample f s = let (a, w) = f s.world in (ret a, record s { world = w })

-- `if test { m } else { n }`, on actions: shut, so that the rules for actions see it.
infix 1 if◌then◌else◌
unfoldable pub if◌then◌else◌ : {W E O A : Type 0} → Bool → M W E O A → M W E O A → M W E O A
if true then m else n = m
if false then m else n = n

-- `if test { body }`
unfoldable pub when : {W E O : Type 0} → Bool → M W E O (Unit {0}) → M W E O (Unit {0})
when true m = m
when false m = pure tt

-- `if !test { body }`
unfoldable pub unless : {W E O : Type 0} → Bool → M W E O (Unit {0}) → M W E O (Unit {0})
unless true m = pure tt
unless false m = m

module _ {W E O A B : Type 0} where
  abbrev pub continue : Outcome A → (A → M W E O B) → M W E O B
  continue (ret a) f s = f a s
  continue (fail e) f s = (fail e, s)
  continue panic f s = (panic, s)

  infixl 10 ◌>>=◌ ◌>>◌
  unfoldable pub ◌>>=◌ : M W E O A → (A → M W E O B) → M W E O B
  unfolding pure raise crash deref call wrap attempt get_obj emit modify sample if◌then◌else◌ when
      unless
  ◌>>=◌ m f s = let (r, s') = m s in continue r f s'

  abbrev pub ◌>>◌ : M W E O A → M W E O B → M W E O B
  m >> k = m >>= λ _. k

-- `defer func() { … reterr = … }()`: the deferred function sees the error to be returned (none after
-- a panic too), and gives the error that it assigns to it, if any.
abbrev pub reterr : {A : Type 0} → Outcome A → Option Error
reterr (ret a) = none
reterr (fail e) = some e
reterr panic = none

abbrev pub settle : {A : Type 0} → Outcome A → Outcome (Option Error) → Outcome A
settle r panic = panic
settle r (fail e) = fail e
settle panic (ret _) = panic
settle r (ret none) = r
settle (ret a) (ret (some e)) = fail e
settle (fail _) (ret (some e)) = fail e

unfoldable pub defer_with :
    {W E O A : Type 0} → M W E O A → (Option Error → M W E O (Option Error)) → M W E O A
defer_with m d s = let (r, s') = m s in let (q, s'') = d (reterr r) s' in (settle r q, s'')
