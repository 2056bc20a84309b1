-- ===== src/Errors.antt =====
-- Go's error values, as far as the code looks into them, and what a client's call returns.
use cluster_api_provider_cce.Prelude.{ℕ, String}

-- `service_response` is `*sdkerr.ServiceResponseError` with its StatusCode and ErrorCode; `other` is
-- any other error of a library; `new` is errors.New and errors.Errorf; `wrapped` is errors.Wrap,
-- errors.Wrapf and fmt.Errorf with %w; `wrapped_nil` is fmt.Errorf with %w of a nil error.
pub data Error : Type 0 where
  service_response : ℕ → String → Error
  other : String → Error
  new : String → Error
  wrapped : String → Error → Error
  wrapped_nil : String → Error

-- `(response, err)` of a client's call.
pub data Result (A : Type 0) : Type 0 where
  ok : A → Result A
  err : Error → Result A
