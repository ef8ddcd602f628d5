-- ===== src/Ntor/Refusal.antt =====
-- A public key of small order makes a shared secret of zeros, which both sides refuse.
use wfdef.Prelude.{
  ◌≡◌, refl, ◌⊎◌, inl, inr, false, Bool-cases, ◌==◌, Bytes, replicate, zero, suc, ℕ,
}
use wfdef.Ntor.{
  Curve, Hashes, Keypair, or_all, constant_time_is_zero, server_handshake, client_handshake,
}

or_all-zeros : (n : ℕ) → or_all 0 (replicate n 0) ≡ 0
or_all-zeros zero = refl
or_all-zeros (suc n) = or_all-zeros n

is_zero-zeros : (n : ℕ) → constant_time_is_zero (replicate n 0) ≡ 1
unfolding constant_time_is_zero
is_zero-zeros n = rw (or_all-zeros n)

-- The test is a bit.
is_zero-bit : (x : Bytes) → (constant_time_is_zero x ≡ 0) ⊎ (constant_time_is_zero x ≡ 1)
unfolding constant_time_is_zero
is_zero-bit x = elim (Bool-cases (or_all 0 x == 0)) [
  | inl zeros ↦ inr (rw zeros refl)
  | inr other ↦ inl (rw other refl)
]

module _ (c : Curve) (h : Hashes) where
  -- A client's key that gives the server a shared secret of zeros, with its session key or with its
  -- identity, is refused.
  pub server_handshake-zeros :
      (client_public : Bytes) (server identity : Keypair) (id : Bytes)
      → (c.scalar_mult server.private client_public ≡ replicate 32 0)
        ⊎ (c.scalar_mult identity.private client_public ≡ replicate 32 0)
      → (server_handshake c h client_public server identity id).0 ≡ false
  unfolding server_handshake
  server_handshake-zeros x server identity id (inl z) =
      elim (is_zero-bit (c.scalar_mult identity.private x)) [
        | inl b ↦ rw (z, is_zero-zeros 32, b) refl
        | inr b ↦ rw (z, is_zero-zeros 32, b) refl
      ]
  server_handshake-zeros x server identity id (inr z) =
      elim (is_zero-bit (c.scalar_mult server.private x)) [
        | inl b ↦ rw (z, is_zero-zeros 32, b) refl
        | inr b ↦ rw (z, is_zero-zeros 32, b) refl
      ]

  -- The client refuses a server's keys likewise.
  pub client_handshake-zeros :
      (client : Keypair) (server_public id_public id : Bytes)
      → (c.scalar_mult client.private server_public ≡ replicate 32 0)
        ⊎ (c.scalar_mult client.private id_public ≡ replicate 32 0)
      → (client_handshake c h client server_public id_public id).0 ≡ false
  unfolding client_handshake
  client_handshake-zeros client y b id (inl z) =
      elim (is_zero-bit (c.scalar_mult client.private b)) [
        | inl e ↦ rw (z, is_zero-zeros 32, e) refl
        | inr e ↦ rw (z, is_zero-zeros 32, e) refl
      ]
  client_handshake-zeros client y b id (inr z) =
      elim (is_zero-bit (c.scalar_mult client.private y)) [
        | inl e ↦ rw (z, is_zero-zeros 32, e) refl
        | inr e ↦ rw (z, is_zero-zeros 32, e) refl
      ]
