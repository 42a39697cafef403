-- ===== src/Dnssec/Errors.antt =====
-- The errors of utils.go and nsec3.go, an error of the library's `Verify`, and the panic of a
-- failed type assertion.
use sdns.Base.{ℕ}

pub data SecError : Type 0 where
  missing_ksk failed_to_convert_ksk mismatching_ds no_signatures missing_dnskey : SecError
  invalid_signature_period missing_signed : SecError
  nsec_type_exists nsec_missing_coverage nsec_bad_delegation nsec_ns_missing nsec_opt_out : SecError
  signature : ℕ → SecError
  type_assertion : SecError
