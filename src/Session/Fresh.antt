-- ===== src/Session/Fresh.antt =====
-- No `Crypter` of oak_crypto/src/noise_handshake/mod.rs uses a nonce twice with its key.
use not_an_oak_fork.Base.{
  ℕ, suc, ◌/◌, ◌%◌, ◌^◌, ◌≤◌, ◌<◌, ◌≡◌, refl, sym, ap, ◌∙◌, ◌≢◌, ltb, Bool-cases, inl, inr,
  ltb_false→le, ◌++◌, length, replicate, arith,
}
use not_an_oak_fork.Session.Run.{ok}
use not_an_oak_fork.Session.Crypto.{Bytes, Crypto}
use not_an_oak_fork.Session.CrypterLaws.{ltb-false}
use not_an_oak_fork.Session.Crypter.{Nonce, Crypter, next, to_be_bytes, encrypt, decrypt}

to_be_bytes-inj : (a b : ℕ) → a < 2 ^ 32 → b < 2 ^ 32 → to_be_bytes a ≡ to_be_bytes b → a ≡ b
unfolding to_be_bytes
to_be_bytes-inj a b ha hb e =
    let f1 : a / 2 ^ 24 % 256 ≡ b / 2 ^ 24 % 256 = cc in
    let f2 : a / 2 ^ 16 % 256 ≡ b / 2 ^ 16 % 256 = cc in
    let f3 : a / 2 ^ 8 % 256 ≡ b / 2 ^ 8 % 256 = cc in
    let f4 : a % 256 ≡ b % 256 = cc in omega arith

next-eq-ok :
    (n : Nonce) {bs : Bytes}
    → (next n).0 ≡ ok bs
    → (n.nonce ≤ 2 ^ 24)
      × (bs ≡ replicate 8 0 ++ to_be_bytes n.nonce)
      × ((next n).1 ≡ record { nonce = suc n.nonce })
unfolding next
next-eq-ok n e = elim (Bool-cases (ltb (2 ^ 24) n.nonce)) [
  | inl t ↦ absurd (let q = rw t at e in cc)
  | inr f ↦ let q = rw f at e in (ltb_false→le (2 ^ 24) n.nonce f, sym (cc), rw f refl)
]

next-le : (n : Nonce) → n.nonce ≤ (next n).1.nonce
unfolding next
next-le n = elim (Bool-cases (ltb (2 ^ 24) n.nonce)) [
  | inl t ↦ rw t (omega arith)
  | inr f ↦ rw f (omega arith)
]

module _ {Scalar Point : Type 0} (c : Crypto Scalar Point) where
  -- One more call, whatever it comes to.
  pub data Step (s : Crypter) : Crypter → Type 0 where
    encrypts : (p : Bytes) → Step s (encrypt c p s).1
    decrypts : (p : Bytes) → Step s (decrypt c p s).1

  pub data Steps (s : Crypter) : Crypter → Type 0 where
    done : Steps s s
    more : (a b : Crypter) → Steps s a → Step a b → Steps s b

  Later : Crypter → Crypter → Type 0
  Later s t = (t.write_key ≡ s.write_key) × (s.write_nonce.nonce ≤ t.write_nonce.nonce)

  Step-Later : (s t : Crypter) → Step s t → Later s t
  unfolding encrypt decrypt Later
  Step-Later s t (encrypts p) = elim (Bool-cases (ltb (2 ^ 28) (length p))) [
    | inl y ↦ rw y (refl, omega arith)
    | inr n ↦ rw n (refl, next-le s.write_nonce)
  ]
  Step-Later s t (decrypts p) = (refl, omega arith)

  Steps-Later : (s t : Crypter) → Steps s t → Later s t
  unfolding Later
  Steps-Later s t done = (refl, omega arith)
  Steps-Later s t (more a b x y) =
      let (k, n) = Steps-Later s a x in let (k', n') = Step-Later a b y in (k' ∙ k, omega arith)

  encrypt-wrote :
      (p : Bytes) (s : Crypter)
      → length p ≤ 2 ^ 28
      → (next s.write_nonce).1 ≡ record { nonce = suc s.write_nonce.nonce }
      → ((encrypt c p s).1.write_key ≡ s.write_key)
        × ((encrypt c p s).1.write_nonce.nonce ≡ suc s.write_nonce.nonce)
  unfolding encrypt
  encrypt-wrote p s short e = rw (ltb-false (2 ^ 28) (length p) short) (refl, ap (λ n. n.nonce) e)

  tail-eq : {xs ys : Bytes} → replicate 8 0 ++ xs ≡ replicate 8 0 ++ ys → xs ≡ ys
  tail-eq e = cc

  pub encrypt-fresh :
      (p : Bytes) (s t : Crypter) (a b : Bytes)
      → length p ≤ 2 ^ 28
      → (next s.write_nonce).0 ≡ ok a
      → Steps (encrypt c p s).1 t
      → (next t.write_nonce).0 ≡ ok b
      → (t.write_key ≡ s.write_key) × (a ≢ b)
  unfolding Later
  encrypt-fresh p s t a b short e steps h =
      let (lo, ea, ns) = next-eq-ok s.write_nonce e in
      let (hi, eb, _) = next-eq-ok t.write_nonce h in
      let (k, n) = Steps-Later (encrypt c p s).1 t steps in
      let (k', w) = encrypt-wrote p s short ns in
      (
        k ∙ k',
        λ same.
            let q =
              to_be_bytes-inj s.write_nonce.nonce t.write_nonce.nonce (omega arith) (omega arith)
                (tail-eq (sym ea ∙ same ∙ eb)) in
            omega (arith, w, n, q),
      )
