-- ===== src/Attestation/PlatformLaws.antt =====
-- What the check of the root layer's report in oak_attestation_verification/src/verifier.rs shows.
use not_an_oak_fork.Base.{
  ℕ, String, ◌≡◌, refl, sym, ap, ◌∙◌, ◌↔◌, ◌<◌, Bool, true, false, ◌&&◌, ltb, bytes_eq,
  bytes_eq_iff, ltb→lt, lt→ltb, take, drop, length, take-append, take-append-drop, some, List, ◌++◌,
  ok, context-eq-ok, >>=-eq-ok, >>=-ok, context-ok, ensure,
}
use not_an_oak_fork.Attestation.Report.{AttestationReport, validate}
use not_an_oak_fork.Attestation.Evidence.{RootLayerEvidence}
use not_an_oak_fork.Attestation.Externals.{Externals}
use not_an_oak_fork.Attestation.Amd.{verify_cert_signature, verify_attestation_report_signature}
use not_an_oak_fork.Attestation.Verifier.{is_bound, verify_sev_snp_signature}

ensure_ok : (b : Bool) (s : String) → (ensure b s ≡ ok tt) ↔ (b ≡ true)
ensure_ok true s = (λ h. refl, λ h. refl)
ensure_ok false s = (λ h. cc, λ h. cc)

and_true : (a b : Bool) → ((a && b) ≡ true) ↔ ((a ≡ true) × (b ≡ true))
and_true true b = (λ h. (refl, h), λ z. z.1)
and_true false b = (λ h. cc, λ z. cc (z.0))

-- the binding test: the first bytes, and not all of them, are those of the hash
is_prefix :
    (h d : List ℕ)
    → ((ltb (length h) (length d) && bytes_eq h (take (length h) d)) ≡ true)
      ↔ ((length h < length d) × (rest : List ℕ) × (d ≡ h ++ rest))
is_prefix h d =
    let a = and_true (ltb (length h) (length d)) (bytes_eq h (take (length h) d)) in
    let b = bytes_eq_iff h (take (length h) d) in
    (
      λ e.
          let z = a.0 e in
          (
            ltb→lt _ _ z.0,
            drop (length h) d,
            sym (take-append-drop (length h) d) ∙ ap (λ t. t ++ drop (length h) d) (sym (b.0 z.1)),
          ),
      λ z.
          let (l, rest, p) = z in
          a.1 (lt→ltb _ _ l, b.1 (sym (ap (take (length h)) p ∙ take-append h rest))),
    )

module _ (x : Externals) where
  -- The AMD root of trust: the certificate is signed with AMD's intermediate key, the report is
  -- of the right format and signed with the certificate's key, and its custom data starts with
  -- the hash of the layer's key, with something behind it.
  abbrev pub Genuine : RootLayerEvidence → List ℕ → Type 0
  Genuine root serialized =
      (vcek : x.Certificate) × (x.cert_from_der serialized ≡ some vcek)
      × (ask : x.Certificate) × (x.ask_milan ≡ some ask)
      × (verify_cert_signature x ask vcek ≡ ok tt)
      × (report : AttestationReport) × (x.report_from_bytes root.remote_attestation_report
          ≡ some report)
      × (validate report ≡ ok tt)
      × (verify_attestation_report_signature x vcek report ≡ ok tt)
      × (length (x.sha2_256 root.eca_public_key) < length report.report_body.report_data)
      × (rest : List ℕ) × (report.report_body.report_data ≡ x.sha2_256 root.eca_public_key ++ rest)

  pub verify_sev_snp_signature-Genuine :
      (r : RootLayerEvidence) (c : List ℕ) → (verify_sev_snp_signature x r c ≡ ok tt) ↔ Genuine r c
  unfolding verify_sev_snp_signature is_bound
  verify_sev_snp_signature-Genuine r c = (
    λ h.
        let (vcek, e0, h0) = >>=-eq-ok _ _ h in
        let (ask, e1, h1) = >>=-eq-ok _ _ h0 in
        let (u, e2, h2) = >>=-eq-ok _ _ h1 in
        let (report, e3, h3) = >>=-eq-ok _ _ h2 in
        let (v, e4, h4) = >>=-eq-ok _ _ h3 in
        let (w, e5, h5) = >>=-eq-ok _ _ h4 in
        let (l, rest, p) = (is_prefix _ _).0 ((ensure_ok _ _).0 h5) in
        (
          vcek,
          context-eq-ok _ _ e0,
          ask,
          context-eq-ok _ _ e1,
          e2,
          report,
          context-eq-ok _ _ e3,
          e4,
          e5,
          l,
          rest,
          p,
        ),
    λ z.
        let (vcek, e0, ask, e1, e2, report, e3, e4, e5, l, rest, p) = z in
        let bound =
          (ensure_ok _ "The root layer's ECA public key is not bound to the attestation report").1
            ((is_prefix _ _).1 (l, rest, p)) in
        >>=-ok _ _ (context-ok _ _ e0) (
          >>=-ok _ _ (context-ok _ _ e1)
            (>>=-ok _ _ e2 (>>=-ok _ _ (context-ok _ _ e3) (>>=-ok _ _ e4 (>>=-ok _ _ e5 bound))))),
  )
