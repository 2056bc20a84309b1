-- ===== src/Service/Address.antt =====
-- parseURL of pkg/cloud/services/cce/service.go, with strconv.Atoi on the port.
pub mod Port
use Prim.Native.Char.{code}
use cluster_api_provider_cce.Prelude.{
  ℕ, ◌+◌, ◌-◌, ◌*◌, ◌%◌, ◌^◌, String, Bool, ◌&&◌, Option, none, some, List, [], ◌∷◌, ltb, leb, eqb,
  if◌then◌else◌,
}
use cluster_api_provider_cce.Errors.{Error, other, wrapped, Result, ok, err}
use cluster_api_provider_cce.Env.{Url}

abbrev pub codes : String → List ℕ
codes String.[] = []
codes (String.◌∷◌ c s) = code c ∷ codes s

abbrev pub is_digit : ℕ → Bool
is_digit c = leb b'0' c && leb c b'9'

-- The value of decimal digits, on top of the value of the digits before them.
unfoldable pub digits_value : ℕ → List ℕ → Option ℕ
digits_value acc [] = some acc
digits_value acc (c ∷ cs) =
    let rest = digits_value (acc * 10 + (c - b'0')) cs in if is_digit c then rest else none

abbrev pub invalid_number : Error
invalid_number = other "strconv.Atoi"

-- A number that fits the range below `bound`; the result is the bit pattern of an int.
abbrev pub in_range : ℕ → (ℕ → ℕ) → Option ℕ → Result ℕ
in_range bound f none = err invalid_number
in_range bound f (some n) = if ltb n bound then ok (f n) else err invalid_number

abbrev pub magnitude : List ℕ → Option ℕ
magnitude [] = none
magnitude (c ∷ cs) = digits_value 0 (c ∷ cs)

abbrev pub two_complement : ℕ → ℕ
two_complement n = (2 ^ 64 - n) % 2 ^ 64

unfoldable pub atoi_codes : List ℕ → Result ℕ
unfolding digits_value
atoi_codes [] = err invalid_number
atoi_codes (c ∷ cs) =
    if eqb c b'-'
    then in_range (2 ^ 63 + 1) two_complement (magnitude cs)
    else if eqb c b'+'
    then in_range (2 ^ 63) (λ n. n) (magnitude cs)
    else in_range (2 ^ 63) (λ n. n) (magnitude (c ∷ cs))

unfoldable pub atoi : String → Result ℕ
unfolding atoi_codes
atoi s = atoi_codes (codes s)

abbrev pub with_port : Url → Result ℕ → Result (String × ℕ)
with_port u (ok port) = ok (u.hostname, port)
with_port u (err e) = err (wrapped "String to int conversion error" e)

abbrev pub of_url : Result Url → Result (String × ℕ)
of_url (ok u) = with_port u (atoi u.port)
of_url (err e) = err (wrapped "failed to pase url" e)

-- parseURL, over url.Parse
unfoldable pub parse_url : (String → Result Url) → String → Result (String × ℕ)
unfolding atoi
parse_url url_parse address = of_url (url_parse address)
