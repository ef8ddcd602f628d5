-- ===== src/Ntor.antt =====
-- common/ntor/ntor.go: the ntor handshake on Curve25519 keys. The curve, Elligator, SHA-256 and HMAC
-- are parameters; internal/extra25519, which has Elligator, is a copy of another library.
pub mod Clamp
pub mod Agreement
pub mod Generated
pub mod Refusal
use Prim.Native.Nat.{bit_and, bit_or}
use wfdef.Prelude.{
  ℕ, zero, suc, ◌+◌, ◌-◌, ◌≡◌, Bool, true, false, Option, none, some, List, [], ◌∷◌, ◌++◌, Bytes,
  IsBytes, length, take, drop, ◌==◌, codes, if◌then◌else◌, Result, ok, err, bytes_eq,
}

pub record Curve : Type 0 where
  pub scalar_mult : Bytes → Bytes → Bytes
  pub scalar_base_mult : Bytes → Bytes
  -- The public key and its representative, where the private key has one.
  pub elligator : Bytes → Option (Bytes × Bytes)
  pub to_public : Bytes → Bytes

-- What is documented of the curve and of Elligator.
pub record CurveLaws (c : Curve) : Type 0 where
  pub scalar_mult_comm :
      (x y : Bytes)
      → c.scalar_mult x (c.scalar_base_mult y) ≡ c.scalar_mult y (c.scalar_base_mult x)
  pub elligator_public : (k p r : Bytes) → c.elligator k ≡ some (p, r) → p ≡ c.scalar_base_mult k
  pub elligator_to_public : (k p r : Bytes) → c.elligator k ≡ some (p, r) → c.to_public r ≡ p
  pub length-representative : (k p r : Bytes) → c.elligator k ≡ some (p, r) → length r ≡ 32

pub record Hashes : Type 0 where
  pub sha256 : Bytes → Bytes
  pub hmac : Bytes → Bytes → Bytes
  pub length-hmac : (key message : Bytes) → length (hmac key message) ≡ 32

-- What is documented of SHA-256: a digest is 32 bytes.
pub record DigestLaws (h : Hashes) : Type 0 where
  pub length-sha256 : (message : Bytes) → length (h.sha256 message) ≡ 32
  pub sha256-IsBytes : (message : Bytes) → IsBytes (h.sha256 message)

abbrev pub public_key_length : ℕ
public_key_length = 32

abbrev pub representative_length : ℕ
representative_length = 32

abbrev pub private_key_length : ℕ
private_key_length = 32

abbrev pub node_id_length : ℕ
node_id_length = 20

abbrev pub auth_length : ℕ
auth_length = 32

abbrev pub proto_id : Bytes
proto_id = codes "ntor-curve25519-sha256-1"

abbrev pub t_mac : Bytes
t_mac = proto_id ++ codes ":mac"

abbrev pub t_key : Bytes
t_key = proto_id ++ codes ":key_extract"

abbrev pub t_verify : Bytes
t_verify = proto_id ++ codes ":key_verify"

pub data KeyError : Type 0 where
  public_key_length_error : ℕ → KeyError
  private_key_length_error : ℕ → KeyError
  node_id_length_error : ℕ → KeyError

unfoldable pub new_node_id : Bytes → Result KeyError Bytes
new_node_id raw =
    if length raw == node_id_length then ok raw else err (node_id_length_error (length raw))

unfoldable pub new_public_key : Bytes → Result KeyError Bytes
new_public_key raw =
    if length raw == public_key_length then ok raw else err (public_key_length_error (length raw))

pub record Keypair : Type 0 where
  pub public : Bytes
  pub private : Bytes
  pub representative : Option Bytes

-- `digest[0] &= 248`, and then `digest[31]` with `& 127` and `| 64`.
abbrev pub clamp_last : Bytes → Bytes
clamp_last [] = []
clamp_last (b ∷ bs) = bit_or (bit_and b 127) 64 ∷ bs

abbrev pub clamp_first : Bytes → Bytes
clamp_first [] = []
clamp_first (b ∷ bs) = bit_and b 248 ∷ bs

unfoldable pub clamp : Bytes → Bytes
clamp digest = let d = clamp_first digest in take 31 d ++ clamp_last (drop 31 d)

abbrev pub or_all : ℕ → Bytes → ℕ
or_all acc [] = acc
or_all acc (b ∷ bs) = or_all (bit_or acc b) bs

unfoldable pub constant_time_is_zero : Bytes → ℕ
constant_time_is_zero x = if or_all 0 x == 0 then 1 else 0

module _ (curve : Curve) (hashes : Hashes) where
  open curve use {scalar_mult, scalar_base_mult, elligator}
  open hashes use {sha256, hmac}

  -- The private key from what the random source gives.
  abbrev pub private_of : Bytes → Bytes
  private_of random = take private_key_length (clamp (sha256 random))

  -- `NewKeypair` on what the random source gives round by round; `none` if it has ended: the code
  -- goes on until a key has a representative, or returns the source's error.
  unfoldable pub new_keypair : Bool → List Bytes → Option Keypair
  new_keypair use_elligator [] = none
  new_keypair true (random ∷ rest) = elim (elligator (private_of random)) [
    | none ↦ new_keypair true rest
    | some (p, r) ↦
        some (record { public = p; private = private_of random; representative = some r })
  ]
  new_keypair false (random ∷ rest) = some (record {
    public = scalar_base_mult (private_of random);
    private = private_of random;
    representative = none;
  })

  -- `KeypairFromHex` on the bytes that the hexadecimal text stands for.
  unfoldable pub keypair_from_raw : Bytes → Result KeyError Keypair
  keypair_from_raw raw =
      if length raw == private_key_length
      then ok (record { public = scalar_base_mult raw; private = raw; representative = none })
      else err (private_key_length_error (length raw))

  -- The key seed and the authentication tag.
  abbrev pub ntor_common : Bytes → Bytes → Bytes → Bytes → Bytes → Bytes × Bytes
  ntor_common secret id b x y =
      let suffix = b ++ (b ++ (x ++ (y ++ (proto_id ++ id)))) in
      let secret_input = secret ++ suffix in
      let verify = hmac t_verify secret_input in
      (hmac t_key secret_input, hmac t_mac (verify ++ (suffix ++ codes "Server")))

  -- The end of both sides, from the two shared secrets.
  abbrev pub conclude : Bytes → Bytes → Bytes → Bytes → Bytes → Bytes → Bool × (Bytes × Bytes)
  conclude exp1 exp2 id b x y =
      let not_ok = bit_or (bit_or 0 (constant_time_is_zero exp1)) (constant_time_is_zero exp2) in
      (not_ok == 0, ntor_common (exp1 ++ exp2) id b x y)

  unfoldable pub server_handshake : Bytes → Keypair → Keypair → Bytes → Bool × (Bytes × Bytes)
  server_handshake client_public server_keypair id_keypair id =
      conclude (scalar_mult server_keypair.private client_public)
        (scalar_mult id_keypair.private client_public) id id_keypair.public client_public
        server_keypair.public

  unfoldable pub client_handshake : Keypair → Bytes → Bytes → Bytes → Bool × (Bytes × Bytes)
  client_handshake client_keypair server_public id_public id =
      conclude (scalar_mult client_keypair.private server_public)
        (scalar_mult client_keypair.private id_public) id id_public client_keypair.public
        server_public

abbrev pub compare_auth : Bytes → Bytes → Bool
compare_auth auth1 auth2 = bytes_eq auth1 auth2
