-- ===== src/Egress/Ca/Usable.antt =====
-- The check of a user's CA (validateEgressCASecret, internal/usecase/hermesagent_egress_ca_secret.go)
-- against a description of a usable one.
use hermes_agent_operator.Prelude.{
  String, true, false, Option, none, some, ◌≡◌, refl, arith, StringMap, is_empty, ◌||◌, ◌==◌, ◌↔◌,
  Bool-cases, inl, inr,
}
use hermes_agent_operator.Kube.Client.{on_ok_ok, Error, Result, ok, err, Certificate, Platform}
use hermes_agent_operator.Egress.Ca.{
  tls_cert_key, tls_key_key, entry, check_certificate, parsed, validate_egress_ca_secret,
}

-- A certificate and a key, of which the certificate is that of an authority that may sign.
pub record IsUsable {W : Type 0} (p : Platform W) (contents : StringMap String) : Type 0 where
  pub has_key : is_empty (entry contents tls_key_key) ≡ false
  pub has_cert : is_empty (entry contents tls_cert_key) ≡ false
  pub block : String
  pub decoded : p.pem_decode (entry contents tls_cert_key) ≡ some block
  pub cert : Certificate
  pub parses : p.parse_certificate block ≡ ok cert
  pub is_authority : cert.is_ca ≡ true
  pub may_sign : ((cert.key_usage == 0) || cert.cert_sign) ≡ true

IsTested : Certificate → Type 0
IsTested cert = (cert.is_ca ≡ true) × (((cert.key_usage == 0) || cert.cert_sign) ≡ true)

checked :
    (ref_name : String) (cert : Certificate)
    → check_certificate ref_name cert ≡ ok tt
    → IsTested cert
unfolding check_certificate IsTested
checked ref_name cert h = (ground arith, ground arith)

passes :
    (ref_name : String) (cert : Certificate)
    → IsTested cert
    → check_certificate ref_name cert ≡ ok tt
unfolding check_certificate IsTested
passes ref_name cert (a, b) = ground arith

not_ok : {A : Type 0} {e : Error} {a : A} → err e ≡ ok a → ⊥
not_ok h = cc

parsed_ok :
    (ref_name : String) (r : Result Certificate) {cert : Certificate}
    → parsed ref_name r ≡ ok cert
    → r ≡ ok cert
parsed_ok ref_name (ok c) h = h
parsed_ok ref_name (err e) h = absurd (not_ok h)

module _ {W : Type 0} (p : Platform W) (ref_name : String) (contents : StringMap String) where
  usable :
      (block : Option String)
      → p.pem_decode (entry contents tls_cert_key) ≡ block
      → is_empty (entry contents tls_cert_key) ≡ false
      → is_empty (entry contents tls_key_key) ≡ false
      → validate_egress_ca_secret p ref_name contents ≡ ok tt
      → IsUsable p contents
  unfolding validate_egress_ca_secret IsTested
  usable none d c k h = absurd (not_ok (rw (c, k, d) at h))
  usable (some block) d c k h =
      let (cert, q, r) =
        on_ok_ok (parsed ref_name (p.parse_certificate block)) _ (rw (c, k, d) at h) in
      let (authority, sign) = checked ref_name cert r in
      record {
        has_key = k;
        has_cert = c;
        block = block;
        decoded = d;
        cert = cert;
        parses = parsed_ok ref_name (p.parse_certificate block) q;
        is_authority = authority;
        may_sign = sign;
      }

  accepted-IsUsable : validate_egress_ca_secret p ref_name contents ≡ ok tt → IsUsable p contents
  unfolding validate_egress_ca_secret
  accepted-IsUsable h = elim (Bool-cases (is_empty (entry contents tls_cert_key))) [
    | inl c ↦ absurd (not_ok (rw c at h))
    | inr c ↦ elim (Bool-cases (is_empty (entry contents tls_key_key))) [
      | inl k ↦ absurd (not_ok (rw (c, k) at h))
      | inr k ↦ usable (p.pem_decode (entry contents tls_cert_key)) refl c k h
    ]
  ]

  -- A CA Secret that the user supplies is accepted exactly if it is usable: it has a key and a
  -- certificate, and the certificate is PEM that parses, is that of an authority, and states no key
  -- usage or one that has certificate signing.
  pub validate_egress_ca_secret_iff :
      (validate_egress_ca_secret p ref_name contents ≡ ok tt) ↔ IsUsable p contents
  unfolding validate_egress_ca_secret IsTested
  validate_egress_ca_secret_iff = (
    accepted-IsUsable,
    λ u.
        rw (u.has_cert, u.has_key, u.decoded, u.parses)
          (passes ref_name u.cert (u.is_authority, u.may_sign)),
  )
