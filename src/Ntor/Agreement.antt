-- ===== src/Ntor/Agreement.antt =====
-- The two sides of an ntor handshake come to the same keys.
use wfdef.Prelude.{◌≡◌, refl, sym, ap, ◌∙◌, some, Bytes, length}
use wfdef.Ntor.{Curve, CurveLaws, Hashes, Keypair, server_handshake, client_handshake}

-- A public key with its private key, and a representative of it.
pub record IsKeypair (c : Curve) (k : Keypair) : Type 0 where
  pub public_eq : k.public ≡ c.scalar_base_mult k.private
  pub represented :
      (r : Bytes) → k.representative ≡ some r → (c.to_public r ≡ k.public) × (length r ≡ 32)

module _ (c : Curve) (h : Hashes) (laws : CurveLaws c) where
  shared :
      (x y : Keypair)
      → IsKeypair c x
      → IsKeypair c y
      → c.scalar_mult x.private y.public ≡ c.scalar_mult y.private x.public
  shared x y hx hy =
      ap (c.scalar_mult x.private) hy.public_eq
      ∙ laws.scalar_mult_comm x.private y.private
      ∙ ap (c.scalar_mult y.private) (sym hx.public_eq)

  -- With the key pairs of a client, of a server and of its identity, both sides have the same status,
  -- the same key seed and the same authentication tag.
  pub client_handshake-server_handshake :
      (client server identity : Keypair) (id : Bytes)
      → IsKeypair c client
      → IsKeypair c server
      → IsKeypair c identity
      → client_handshake c h client server.public identity.public id
        ≡ server_handshake c h client.public server identity id
  unfolding client_handshake server_handshake
  client_handshake-server_handshake client server identity id hc hs hi =
      rw (shared client server hc hs, shared client identity hc hi) refl

  pub length-auth :
      (client : Keypair) (server_public id_public id : Bytes)
      → length (client_handshake c h client server_public id_public id).1.1 ≡ 32
  unfolding client_handshake
  length-auth client server_public id_public id = h.length-hmac _ _
