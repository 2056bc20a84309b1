-- ===== src/Service/Address/Port.antt =====
-- The port that parseURL of pkg/cloud/services/cce/service.go reads, against the value of decimal digits.
use native.Mathlib.Nat.{pow-suc}
use cluster_api_provider_cce.Prelude.{
  Bool-cases, inl, inr, ℕ, suc, ◌+◌, ◌-◌, ◌*◌, ◌^◌, String, ◌≡◌, refl, ap, ◌∙◌, true, false, some,
  List, [], ◌∷◌, length, ltb, eqb, if◌then◌else◌, arith,
}
use cluster_api_provider_cce.Errors.{wrapped, Result, ok, err}
use cluster_api_provider_cce.Env.{Url}
use cluster_api_provider_cce.Service.Address.{
  codes, is_digit, digits_value, invalid_number, in_range, atoi_codes, atoi, with_port, parse_url,
}

-- A string of decimal digits, as net/url leaves of a port.
abbrev pub AllDigits : List ℕ → Type 0
AllDigits [] = Unit {0}
AllDigits (c ∷ cs) = (is_digit c ≡ true) × AllDigits cs

-- Each digit counts for the power of ten of its place.
abbrev pub place_value : List ℕ → ℕ
place_value [] = 0
place_value (c ∷ cs) = (c - b'0') * 10 ^ length cs + place_value cs

-- What a port has to give: an error where it is empty or too large for an int, and its value.
abbrev pub port_of : String → List ℕ → Result (String × ℕ)
port_of host [] = err (wrapped "String to int conversion error" invalid_number)
port_of host (c ∷ cs) =
    if ltb (place_value (c ∷ cs)) (2 ^ 63)
    then ok (host, place_value (c ∷ cs))
    else err (wrapped "String to int conversion error" invalid_number)

shift_places : (a d p v : ℕ) → (a * 10 + d) * p + v ≡ a * (p * 10) + (d * p + v)
shift_places a d p v = grind arith

shift_digits : (a d n v : ℕ) → (a * 10 + d) * 10 ^ n + v ≡ a * 10 ^ suc n + (d * 10 ^ n + v)
shift_digits a d n v = rw (pow-suc 10 n) (shift_places a d (10 ^ n) v)

no_digits_before : (p v : ℕ) → 0 * p + v ≡ v
no_digits_before p v = omega arith

digits_value-places :
    (acc : ℕ) (cs : List ℕ)
    → AllDigits cs
    → digits_value acc cs ≡ some (acc * 10 ^ length cs + place_value cs)
unfolding digits_value
digits_value-places acc [] h = ap some (omega arith)
digits_value-places acc (c ∷ cs) (d, h) = rw d (
    digits_value-places (acc * 10 + (c - b'0')) cs h
    ∙ ap some (shift_digits acc (c - b'0') (length cs) (place_value cs)))

-- A digit is no sign.
not_minus : (c : ℕ) → is_digit c ≡ true → eqb c b'-' ≡ false
not_minus c d = ground arith

not_plus : (c : ℕ) → is_digit c ≡ true → eqb c b'+' ≡ false
not_plus c d = ground arith

in_range-some :
    (host : String) (n : ℕ) (u : Url)
    → u.hostname ≡ host
    → with_port u (in_range (2 ^ 63) (λ n. n) (some n)) ≡ (
        if ltb n (2 ^ 63)
        then ok (host, n)
        else err (wrapped "String to int conversion error" invalid_number))
in_range-some host n u h = elim (Bool-cases (ltb n (2 ^ 63))) [
  | inl e ↦ rw (e, h) refl
  | inr e ↦ rw e refl
]

atoi-digits :
    (u : Url) (cs : List ℕ) → AllDigits cs → with_port u (atoi_codes cs) ≡ port_of u.hostname cs
unfolding atoi_codes
atoi-digits u [] h = refl
atoi-digits u (c ∷ cs) (d, h) =
    rw
      (
        not_minus c d,
        not_plus c d,
        digits_value-places 0 (c ∷ cs) (d, h)
            ∙ ap some (no_digits_before (10 ^ length (c ∷ cs)) (place_value (c ∷ cs))),
      )
      (in_range-some u.hostname (place_value (c ∷ cs)) u refl)

-- Where url.Parse gives a URL whose port is a string of digits: parseURL fails where there are no digits,
-- or where their decimal value is 2^63 or more, and else gives the host name and that value.
pub parse_url-port :
    (url_parse : String → Result Url) (address : String) (u : Url)
    → url_parse address ≡ ok u
    → AllDigits (codes u.port)
    → parse_url url_parse address ≡ port_of u.hostname (codes u.port)
unfolding parse_url atoi
parse_url-port url_parse address u e d = rw e (atoi-digits u (codes u.port) d)
