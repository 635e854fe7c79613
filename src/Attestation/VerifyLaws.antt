-- ===== src/Attestation/VerifyLaws.antt =====
-- What the DICE chain of oak_attestation_verification/src/verifier.rs attests when it verifies.
use not_an_oak_fork.Base.{
  ℕ, ◌≡◌, refl, ◌↔◌, true, some, List, [], ◌∷◌, ok, context-eq-ok, ensure-eq-ok, >>=-eq-ok, >>=-ok,
  context-ok,
}
use not_an_oak_fork.Attestation.Evidence.{
  RootLayerEvidence, LayerEvidence, ApplicationKeys, Evidence, ExtractedEvidence,
}
use not_an_oak_fork.Attestation.Externals.{Externals, CoseSign1, CoseKey, ClaimsSet}
use not_an_oak_fork.Attestation.Cert.{cose_key_to_verifying_key, get_public_key_from_claims_set}
use not_an_oak_fork.Attestation.ExtractEvidence.{extract_evidence}
use not_an_oak_fork.Attestation.Verifier.{
  verify_cose, verify_layer, verify_layers, root_layer_verifying_key, verify_application_keys,
  verify_dice_chain,
}

module _ (x : Externals) where
  open x use {VerifyingKey, Signature}

  -- `key` signed the certificate.
  abbrev pub Signed : VerifyingKey → CoseSign1 → Type 0
  Signed key cert =
      (s : Signature) × (x.signature_from_slice cert.signature ≡ some s)
      × (x.verifies key cert.signed s ≡ true)

  verify_cose-Signed : (k : VerifyingKey) (c : CoseSign1) → (verify_cose x k c ≡ ok tt) ↔ Signed k c
  unfolding verify_cose
  verify_cose-Signed k c = (
    λ h. let (s, e, p) = >>=-eq-ok _ _ h in (s, context-eq-ok _ _ e, ensure-eq-ok _ _ p),
    λ z. rw (z.1, z.2) refl,
  )

  -- One layer: `key` signed a certificate, and the claims in it hold the key `next`.
  abbrev pub Certifies : VerifyingKey → LayerEvidence → VerifyingKey → Type 0
  Certifies key layer next =
      (cert : CoseSign1) × (x.cose_sign1_from_slice layer.eca_certificate ≡ some cert)
      × Signed key cert
      × (payload : List ℕ) × (cert.payload ≡ some payload)
      × (claims : ClaimsSet) × (x.claims_from_slice payload ≡ some claims)
      × (cose_key : CoseKey) × (get_public_key_from_claims_set x claims ≡ ok cose_key)
      × (cose_key_to_verifying_key x cose_key ≡ ok next)

  -- Each layer's certificate is signed with the key that the certificate before it holds.
  abbrev pub Chain : VerifyingKey → List LayerEvidence → VerifyingKey → Type 0
  Chain key [] last = key ≡ last
  Chain key (layer ∷ layers) last =
      (next : VerifyingKey) × Certifies key layer next × Chain next layers last

  verify_layer-Certifies :
      (k : VerifyingKey) (l : LayerEvidence) (n : VerifyingKey)
      → (verify_layer x k l ≡ ok n) ↔ Certifies k l n
  unfolding verify_layer
  verify_layer-Certifies k l n = (
    λ h.
        let (cert, e0, h0) = >>=-eq-ok _ _ h in
        let (u, e1, h1) = >>=-eq-ok _ _ h0 in
        let (payload, e2, h2) = >>=-eq-ok _ _ h1 in
        let (claims, e3, h3) = >>=-eq-ok _ _ h2 in
        let (key, e4, h4) = >>=-eq-ok _ _ h3 in
        (
          cert,
          context-eq-ok _ _ e0,
          (verify_cose-Signed k cert).0 e1,
          payload,
          context-eq-ok _ _ e2,
          claims,
          context-eq-ok _ _ e3,
          key,
          e4,
          h4,
        ),
    λ z.
        let (cert, e0, s, payload, e2, claims, e3, key, e4, h4) = z in
        rw (e0, (verify_cose-Signed k cert).1 s, e2, e3, e4) h4,
  )

  -- The fold over the DICE layers, from a key, succeeds with a last key exactly when each
  -- layer's certificate is signed with the key before it and holds the key that the next one is
  -- signed with, up to the last.
  pub verify_layers-Chain :
      (k : VerifyingKey) (ls : List LayerEvidence) (last : VerifyingKey)
      → (verify_layers x k ls ≡ ok last) ↔ Chain k ls last
  unfolding verify_layers
  verify_layers-Chain k [] last = (λ h. cc, λ h. cc)
  verify_layers-Chain k (l ∷ ls) last = (
    λ h.
        let (n, e, r) = >>=-eq-ok _ _ h in
        (n, (verify_layer-Certifies k l n).0 e, (verify_layers-Chain n ls last).0 r),
    λ z. rw ((verify_layer-Certifies k l z.0).1 z.1) ((verify_layers-Chain z.0 ls last).1 z.2),
  )

  -- The two application certificates are both signed with the key.
  abbrev pub KeysSigned : VerifyingKey → ApplicationKeys → Type 0
  KeysSigned key keys =
      (e : CoseSign1) × (x.cose_sign1_from_slice keys.encryption_public_key_certificate ≡ some e)
      × Signed key e
      × (s : CoseSign1) × (x.cose_sign1_from_slice keys.signing_public_key_certificate ≡ some s)
      × Signed key s

  verify_application_keys-KeysSigned :
      (k : VerifyingKey) (a : ApplicationKeys)
      → (verify_application_keys x k a ≡ ok tt) ↔ KeysSigned k a
  unfolding verify_application_keys
  verify_application_keys-KeysSigned k a = (
    λ h.
        let (e, e0, h0) = >>=-eq-ok _ _ h in
        let (u, e1, h1) = >>=-eq-ok _ _ h0 in
        let (s, e2, h2) = >>=-eq-ok _ _ h1 in
        (
          e,
          context-eq-ok _ _ e0,
          (verify_cose-Signed k e).0 e1,
          s,
          context-eq-ok _ _ e2,
          (verify_cose-Signed k s).0 h2,
        ),
    λ z.
        let (e, e0, p, s, e1, q) = z in
        rw (e0, (verify_cose-Signed k e).1 p, e1) ((verify_cose-Signed k s).1 q),
  )

  -- From the root key through the layers to the application keys, and what they attest.
  abbrev pub Attested : Evidence → ExtractedEvidence → Type 0
  Attested evidence extracted =
      (root : RootLayerEvidence) × (evidence.root_layer ≡ some root)
      × (root_key : VerifyingKey) × (root_layer_verifying_key x root ≡ ok root_key)
      × (last : VerifyingKey) × Chain root_key evidence.layers last
      × (keys : ApplicationKeys) × (evidence.application_keys ≡ some keys)
      × KeysSigned last keys
      × (extract_evidence x evidence ≡ ok extracted)

  -- `verify_dice_chain` returns extracted evidence exactly when the root layer holds a key, the
  -- layers are a chain of certificates from that key to a last one, both application
  -- certificates are there and signed with the last key, and the evidence is what
  -- `extract_evidence` reads off.
  pub verify_dice_chain-Attested :
      (e : Evidence) (r : ExtractedEvidence) → (verify_dice_chain x e ≡ ok r) ↔ Attested e r
  unfolding verify_dice_chain
  verify_dice_chain-Attested e r = (
    λ h.
        let (root, e0, h0) = >>=-eq-ok _ _ h in
        let (key, e1, h1) = >>=-eq-ok _ _ h0 in
        let (last, e2, h2) = >>=-eq-ok _ _ h1 in
        let (keys, e3, h3) = >>=-eq-ok _ _ h2 in
        let (u, e4, h4) = >>=-eq-ok _ _ h3 in
        (
          root,
          context-eq-ok _ _ e0,
          key,
          e1,
          last,
          (verify_layers-Chain key e.layers last).0 e2,
          keys,
          context-eq-ok _ _ e3,
          (verify_application_keys-KeysSigned last keys).0 e4,
          h4,
        ),
    λ z.
        let (root, e0, key, e1, last, e2, keys, e3, e4, h) = z in
        >>=-ok _ _ (context-ok _ _ e0) (
          >>=-ok _ _ e1 (
            >>=-ok _ _ ((verify_layers-Chain key e.layers last).1 e2) (
              >>=-ok _ _ (context-ok _ _ e3)
                (>>=-ok _ _ ((verify_application_keys-KeysSigned last keys).1 e4) h)))),
  )
