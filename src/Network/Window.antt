-- ===== src/Network/Window.antt =====
-- The send window of a session, through `send_reliable`.
use ashfall.Prelude.{
  ℕ, suc, ◌≤◌, ◌<◌, ◌≡◌, ◌⊎◌, refl, some, arith, ◌==◌, nat_eq, if◌then◌else◌, Bool-cases, inl, inr,
  wrapping_add,
}
use ashfall.Map
use ashfall.Map.{Map}
use ashfall.Map.Laws.{lookup-insert}
use ashfall.Packet.{Packet}
use ashfall.Packet.Routing.{from_packet}
use ashfall.Reliable.{Bytes, ReliableChannel}
use ashfall.Reliable.Send.{next_seq, can_send, enqueue}
use ashfall.Reliable.Send.Window.{in_flight, in_flight-enqueue, can_send_iff}
use ashfall.Network.{
  Codec, NetworkManager, ok, err, window_full, send_reliable, send_on, reliable_frame,
}

module _ {F : Type 0} (codec : Codec F) where
  -- What `send_reliable` does for a registered address: with room in the window the packet is one more
  -- in flight there, at most 32 in all, and the other sessions stay as they are; with none it is
  -- refused.
  pub send_reliable-window :
      (net : NetworkManager) (addr other now : ℕ) (packet : Packet F) (payload : Bytes)
      (ch : ReliableChannel)
      → codec.to_stdvec packet ≡ some payload
      → Map.lookup net.reliable addr ≡ some ch
      → ((in_flight ch < 32)
          × ((frame : Bytes) × (net' : NetworkManager) × (ch' : ReliableChannel) × (send_reliable
                  codec net addr packet now
                ≡ ok (frame, net'))
              × (in_flight ch' ≡ suc (in_flight ch))
              × (ch'.send_seq ≡ wrapping_add ch.send_seq 1)
              × (Map.lookup net'.reliable other
                  ≡ (if addr == other then some ch' else Map.lookup net.reliable other))))
        ⊎ ((32 ≤ in_flight ch) × (send_reliable codec net addr packet now ≡ err window_full))
  unfolding send_reliable next_seq
  send_reliable-window net addr other now packet payload ch written known =
      let (room, full) = can_send_iff ch in
      let queued = enqueue (next_seq ch).1 (from_packet packet) ch.send_seq payload now in
      elim (Bool-cases (can_send ch)) [
        | inl t ↦ inl (
          room t,
          (
            reliable_frame codec packet ch.send_seq payload,
            record net { reliable = Map.insert net.reliable addr queued },
            queued,
            rw (written, send_reliable) (rw (known, send_on) (rw t)),
            in_flight-enqueue (next_seq ch).1 (from_packet packet) ch.send_seq now payload,
            unfold enqueue in refl,
            lookup-insert net.reliable addr other queued,
          ),
        )
        | inr f ↦
            inr
              (ground (arith, full, room), rw (written, send_reliable) (rw (known, send_on) (rw f)))
      ]
