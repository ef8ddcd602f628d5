-- ===== src/Defconn/Handshake/Replayed.antt =====
-- A client's message that the filter has seen is refused as a replay.
use wfdef.Prelude.{
  ℕ, suc, ◌+◌, ◌≤◌, ◌<◌, ◌≡◌, ap, ◌∙◌, false, none, some, List, ◌∷◌, ◌++◌, Bytes, length, err,
}
use wfdef.Ntor.{Curve, Hashes}
use wfdef.ReplayFilter.{ReplayFilter, test_and_set}
use wfdef.ReplayFilter.Replays.{IsReady, InOrder, run, test_and_set-replayed}
use wfdef.Defconn.Handshake.{
  client_min_pad_length, client_max_pad_length, epoch_hour, hours, ServerHandshake,
  replayed_handshake,
}
use wfdef.Defconn.Handshake.Parse.{server_checks, parse_client_handshake}
use wfdef.Defconn.Handshake.Server.{
  knowing, signed_by, fitting, try_hours-replay, parse_client_handshake-parts,
}

module _ (curve : Curve) (hashes : Hashes) where
  -- Let the filter have taken the MAC of a message at `t0`, and then other MACs, fewer in all than it
  -- holds. Before its time to live is over, any server handshake that gets a message with that MAC,
  -- in an hour that the MAC fits, refuses it as a replay.
  pub parse_client_handshake-replayed :
      (hs : ServerHandshake) (filter : ReplayFilter) (last t0 t : ℕ) (calls : List (ℕ × Bytes))
      (x pad tag hour : Bytes) (others : List Bytes)
      → IsReady filter last (suc (length calls))
      → last ≤ t0
      → InOrder t0 t calls
      → t < t0 + filter.ttl
      → (test_and_set filter t0 tag).1 ≡ false
      → hs.client_representative ≡ none
      → length x ≡ 32
      → client_min_pad_length ≤ length pad
      → length pad ≤ client_max_pad_length
      → length tag ≡ 16
      → fitting hashes
          (knowing hashes hs x)
          (signed_by hashes hs.server_identity.public hs.node_id x pad)
          tag
          (hours (epoch_hour t))
        ≡ hour ∷ others
      → (let seen = run (test_and_set filter t0 tag).0 calls in
          parse_client_handshake curve hashes hs seen t
            (signed_by hashes hs.server_identity.public hs.node_id x pad ++ tag)
          ≡ some (knowing hashes hs x, (test_and_set seen t tag).0, err replayed_handshake))
  unfolding server_checks
  parse_client_handshake-replayed hs filter last t0 t calls x pad tag hour others ready p o young
        new fresh hx hmin hmax ht fits =
      let seen = run (test_and_set filter t0 tag).0 calls in
      let signed = signed_by hashes hs.server_identity.public hs.node_id x pad in
      parse_client_handshake-parts curve hashes hs seen t x pad tag fresh hx hmin hmax ht
      ∙ ap
          (λ r. some (
            server_checks curve hashes (knowing hashes hs x) (length (signed ++ tag))
              (length (x ++ pad)) r))
          (try_hours-replay hashes (knowing hashes hs x) t signed tag hour (hours (epoch_hour t))
            others seen none fits
            (test_and_set-replayed filter last t0 t tag calls ready p o young new))
