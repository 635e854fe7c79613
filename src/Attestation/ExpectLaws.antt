-- ===== src/Attestation/ExpectLaws.antt =====
-- What expected values rest on: the functions of oak_attestation_verification/src/verifier.rs that
-- take them from endorsements, and the log entries of src/rekor.rs.
use not_an_oak_fork.Base.{
  ℕ, ℤ, ◌≡◌, refl, sym, ap, ◌↔◌, bytes_eq, bytes_eq_iff, codes, Option, some, List, [], ◌∷◌, ok,
  ensure, >>=-eq-ok, >>=-ok, context-eq-ok, context-ok, with_context-eq-ok, ensure-eq-ok,
  unwrap-eq-ok, ok-inj, from_utf8,
}
use not_an_oak_fork.Attestation.Digest.{RawDigest, HexDigest, hex_to_raw_digest}
use not_an_oak_fork.Attestation.Values.{
  EndorsementReferenceValue, BinaryReference, TransparentReleaseEndorsement,
  ContainerLayerEndorsements, ContainerLayerReferenceValues,
}
use not_an_oak_fork.Attestation.Expectations.{ExpectedDigests}
use not_an_oak_fork.Attestation.Externals.{Externals, EndorsementStatement, Body}
use not_an_oak_fork.Attestation.Util.{verify_signature_raw, convert_pem_to_raw}
use not_an_oak_fork.Attestation.Claims.{parse_endorsement_statement, get_digest}
use not_an_oak_fork.Attestation.Rekor.{
  RekorSignatureBundle, rekor_signature_bundle, verify_rekor_signature, get_rekor_log_entry_body,
  verify_rekor_body, verify_rekor_log_entry,
}
use not_an_oak_fork.Attestation.EndorsementLaws.{Endorsed, verify_binary_endorsement-Endorsed}
use not_an_oak_fork.Attestation.Expect.{
  into_expected_digests, get_measurement_digest, get_expected_measurement_digest,
  get_container_layer_expected_values,
}

module _ (x : Externals) (now : ℤ) where
  -- The endorsement holds, and `d` is the digest of its statement's only subject.
  abbrev pub EndorsedDigest :
      Option TransparentReleaseEndorsement → EndorsementReferenceValue → ExpectedDigests → Type 0
  EndorsedDigest endorsement keys d =
      (e : TransparentReleaseEndorsement) × (endorsement ≡ some e)
      × Endorsed x now e.endorsement e.endorsement_signature e.rekor_log_entry
          keys.endorser_public_key keys.rekor_public_key
      × (s : EndorsementStatement) × (x.parse_statement e.endorsement ≡ some s)
      × (hex : HexDigest) × (get_digest s ≡ ok hex)
      × (raw : RawDigest) × (hex_to_raw_digest x.hex_decode hex ≡ ok raw)
      × (into_expected_digests (raw ∷ []) ≡ d)

  pub get_expected_measurement_digest-endorsed :
      (o : Option TransparentReleaseEndorsement) (keys : EndorsementReferenceValue)
      (d : ExpectedDigests)
      → (get_expected_measurement_digest x now o
            (record { type = some (BinaryReference.endorsement keys) })
          ≡ ok d)
        ↔ EndorsedDigest o keys d
  unfolding get_expected_measurement_digest get_measurement_digest parse_endorsement_statement
  get_expected_measurement_digest-endorsed o keys d = (
    λ h.
        let (e, e0, h0) = >>=-eq-ok _ _ h in
        let (u, e1, h1) = >>=-eq-ok _ _ h0 in
        let (s, e2, h2) = >>=-eq-ok _ _ h1 in
        let (hex, e3, h3) = >>=-eq-ok _ _ h2 in
        let (raw, e4, h4) = >>=-eq-ok _ _ h3 in
        (
          e,
          context-eq-ok _ _ e0,
          (verify_binary_endorsement-Endorsed x now _ _ _ _ _).0 e1,
          s,
          context-eq-ok _ _ e2,
          hex,
          e3,
          raw,
          e4,
          ok-inj h4,
        ),
    λ z.
        let (e, e0, e1, s, e2, hex, e3, raw, e4, p) = z in
        >>=-ok _ _ (context-ok _ _ e0) (
          >>=-ok _ _ ((verify_binary_endorsement-Endorsed x now _ _ _ _ _).1 e1)
            (>>=-ok _ _ (context-ok _ _ e2) (>>=-ok _ _ e3 (>>=-ok _ _ e4 (ap ok p))))),
  )

  -- The expected values of a container layer do not depend on the endorsement of its
  -- configuration: two endorsements of the layer with the same endorsement of the binary give
  -- the same result.
  pub get_container_layer_expected_values_configuration :
      (e f : ContainerLayerEndorsements) (r : ContainerLayerReferenceValues)
      → e.binary ≡ f.binary
      → get_container_layer_expected_values x now (some e) r
        ≡ get_container_layer_expected_values x now (some f) r
  unfolding get_container_layer_expected_values
  get_container_layer_expected_values_configuration e f r h = rw h refl

module _ (x : Externals) where
  -- The entry's body is a signature over the endorsement: it names its hash, and the signature in
  -- it holds with the key in it.
  abbrev pub BodyHolds : Body → List ℕ → Type 0
  BodyHolds body endorsement =
      (body.hash_value ≡ x.hex_encode (x.sha2_256 endorsement))
      × (signature : List ℕ) × (x.base64_decode body.signature_content ≡ some signature)
      × (pem : List ℕ) × (x.base64_decode body.public_key_content ≡ some pem)
      × (text : List ℕ) × (from_utf8 pem ≡ some text)
      × (key : List ℕ) × (convert_pem_to_raw x text ≡ ok key)
      × (verify_signature_raw x signature endorsement key ≡ ok tt)

  verify_rekor_body-BodyHolds :
      (body : Body) (e : List ℕ) → verify_rekor_body x body e ≡ ok tt → BodyHolds body e
  unfolding verify_rekor_body
  verify_rekor_body-BodyHolds body e h =
      let (a, e3, h3) = >>=-eq-ok (ensure (bytes_eq body.signature_format (codes "x509")) _) _ h in
      let (b, e4, h4) = >>=-eq-ok (ensure (bytes_eq body.hash_algorithm (codes "sha256")) _) _ h3 in
      let (c, e5, h5) = >>=-eq-ok _ _ h4 in
      let (signature, e6, h6) = >>=-eq-ok _ _ h5 in
      let (pem, e7, h7) = >>=-eq-ok _ _ h6 in
      let (text, e8, h8) = >>=-eq-ok _ _ h7 in
      let (key, e9, h9) = >>=-eq-ok _ _ h8 in
      (
        sym ((bytes_eq_iff _ _).0 (ensure-eq-ok _ _ e5)),
        signature,
        unwrap-eq-ok _ e6,
        pem,
        unwrap-eq-ok _ e7,
        text,
        context-eq-ok _ _ e8,
        key,
        e9,
        with_context-eq-ok _ _ h9,
      )

  -- The log has signed the entry, and its body is a signature over the endorsement.
  abbrev pub LogHolds : List ℕ → List ℕ → List ℕ → Type 0
  LogHolds log_entry rekor endorsement =
      (bundle : RekorSignatureBundle) × (rekor_signature_bundle x log_entry ≡ ok bundle)
      × (verify_signature_raw x bundle.signature bundle.canonicalized rekor ≡ ok tt)
      × (body : Body) × (get_rekor_log_entry_body x log_entry ≡ ok body)
      × BodyHolds body endorsement

  pub verify_rekor_log_entry-LogHolds :
      (l r e : List ℕ) → verify_rekor_log_entry x l r e ≡ ok tt → LogHolds l r e
  unfolding verify_rekor_log_entry verify_rekor_signature
  verify_rekor_log_entry-LogHolds l r e h =
      let (u, e0, h0) = >>=-eq-ok _ _ h in
      let (bundle, e1, h1) = >>=-eq-ok _ _ e0 in
      let (body, e2, h2) = >>=-eq-ok _ _ h0 in
      (bundle, e1, with_context-eq-ok _ _ h1, body, e2, verify_rekor_body-BodyHolds body e h2)
