-- ===== src/Monitor/Waiting.antt =====
-- Waiting for the answer to a status request (src/monitor.rs).
use plexsoftware.Prelude.{
  ℕ, zero, suc, ◌+◌, ◌<◌, ◌≤◌, ◌≡◌, refl, List, [], ◌∷◌, ◌++◌, none, some, ok, err, arith, length,
  take,
}
use plexsoftware.Prelude.Int.{pow_31}
use plexsoftware.Types.{Wire, IsWire, read_var_int}
use plexsoftware.Types.Frame.{end_of, end_of_bounds, read_var_int_cut}
use plexsoftware.Proto.Client.{Client}
use plexsoftware.Proto.Packet.{
  RawPacket, Inbound, ReadEvent, chunk, read_packet, read_header, read_body, fill, encode_with_len,
}
use plexsoftware.Proto.Packet.Reading.Chunks.{remaining, IsClean, fill_ready}
use plexsoftware.Proto.Packet.Reading.Framing.{read_packet-encode_with_len}
use plexsoftware.Proto.Action.{Packets}
use plexsoftware.Server.Model.{ServerStatus}
use plexsoftware.Monitor.{wait_for_status}

-- A status response that comes first is what the wait returns, however the network cuts it, if its
-- length header has at most two bytes.
pub wait_for_status_lem :
    (w : Wire) (laws : IsWire w) (packets : Packets) (client : Client) (p : RawPacket)
    (frame : List ℕ) (s : Inbound) (rest : List ℕ) (n fuel : ℕ) (status : ServerStatus)
    → p.id < 256
    → length p.bytes + 5 < pow_31
    → length frame < pow_31
    → encode_with_len w p client ≡ ok frame
    → end_of 5 frame ≡ some n
    → n ≤ 2
    → IsClean s.stream
    → remaining s ≡ frame ++ rest
    → p.id ≡ packets.client_status
    → packets.decode_status_response p.bytes ≡ some status
    → wait_for_status w packets client (suc fuel) s ≡ some (ok status)
unfolding wait_for_status
wait_for_status_lem w laws packets client p frame s rest n fuel status byte size short e ends two
      clean whole id decoded =
    let (s', found, _, _) =
      read_packet-encode_with_len w laws client p frame s rest n byte size short e ends two clean
        whole in
    ground (arith, found, id, decoded)

stuck :
    (w : Wire) (packets : Packets) (client : Client) (s : Inbound) (fuel : ℕ)
    → 2 ≤ length s.buf
    → read_var_int w s.buf ≡ err
    → wait_for_status w packets client fuel s ≡ none
unfolding wait_for_status read_packet read_header read_body
stuck w packets client s zero two bad = refl
stuck w packets client s (suc fuel) two bad =
    ground (arith, fill_ready 2 s.buf s.stream two, bad, stuck w packets client s fuel two bad)

-- If the first read of the answer ends inside a length header of three bytes or more, two bytes in,
-- no number of rounds is enough: each one refuses the same two bytes and reads nothing.
pub wait_for_status_hangs :
    (w : Wire) (packets : Packets) (client : Client) (frame : List ℕ) (n : ℕ) (es : List ReadEvent)
    (fuel : ℕ)
    → end_of 5 frame ≡ some n
    → 3 ≤ n
    → wait_for_status w packets client fuel
        (record { buf = []; stream = chunk (take 2 frame) ∷ es })
      ≡ none
unfolding wait_for_status read_packet read_header read_body fill
wait_for_status_hangs w packets client [] n es fuel ends large = unfold end_of in cc
wait_for_status_hangs w packets client (a ∷ []) n es fuel ends large =
    absurd (omega (arith, end_of_bounds 5 n (a ∷ []) ends))
wait_for_status_hangs w packets client (a ∷ b ∷ frame) n es zero ends large = refl
wait_for_status_hangs w packets client (a ∷ b ∷ frame) n es (suc fuel) ends large =
    let bad = read_var_int_cut w (a ∷ b ∷ frame) n 2 ends large in
    ground (
      arith,
      fill_ready 2 (a ∷ b ∷ []) es,
      bad,
      stuck w packets client (record { buf = a ∷ b ∷ []; stream = es }) fuel,
    )
