-- ===== src/Examples/Connections.antt =====
-- The theorems on the wire and on connections, at concrete inputs.
use plexsoftware.Prelude.{
  ℕ, ◌≢◌, ◌≡◌, refl, ap, List, [], ◌∷◌, ◌++◌, none, some, arith, true, false, ok, err, panic,
}
use plexsoftware.Prelude.Int.{pos, negsuc}
use plexsoftware.Types.{read_var_int}
use plexsoftware.Types.Frame.{end_of}
use plexsoftware.Proto.Client.{Client, handshake, login}
use plexsoftware.Proto.Packet.{
  RawPacket, Inbound, chunk, read_packet, encode_with_len, encode_without_len, decode_with_len,
  decode_without_len,
}
use plexsoftware.Proto.Packet.RoundTrip.{decode_with_len-encode_with_len}
use plexsoftware.Proto.Packet.Reading.Chunks.{remaining, IsClean}
use plexsoftware.Proto.Packet.Reading.Conservation.{Delivers, read_packet-Delivers}
use plexsoftware.Proto.Packet.Reading.Framing.{
  read_packet-encode_with_len, read_packet_split_header,
}
use plexsoftware.Proto.Packet.Reading.Faults.{
  read_packet-ne-panic, negative_length_buffers_all, negative_data_len_panics,
}
use plexsoftware.Monitor.{wait_for_status}
use plexsoftware.Monitor.Waiting.{wait_for_status_lem, wait_for_status_hangs}
use plexsoftware.Server.Model.{Server, default}
use plexsoftware.Server.State.{starting}
use plexsoftware.Server.Stop.{start}
use plexsoftware.Status.{Next, continuing, joining, Moment, serve, round, handle}
use plexsoftware.Status.Serving.{serve_returns}
use plexsoftware.Status.Admission.{handle-ne, admitted}
use plexsoftware.Status.History.{history_complete}
use plexsoftware.Server.Model.{is_banned_ip}
use plexsoftware.Examples.Codec.{wire, laws}
use plexsoftware.Examples.Data.{
  config, world_at, host, packets, plain_client, connection, logging_in, handed_on, login_packet,
  login_frame, idle_status, dates,
}

-- The frame in two pieces, with one byte behind it.
abbrev two_pieces : Inbound
two_pieces = record { buf = 3 ∷ []; stream = chunk (0 ∷ 65 ∷ 66 ∷ 9 ∷ []) ∷ [] }

abbrev behind : Inbound
behind = record { buf = 9 ∷ []; stream = [] }

written : encode_with_len wire login_packet plain_client ≡ ok login_frame
unfolding encode_with_len encode_without_len plexsoftware.Proto.Packet.encode_uncompressed
    plexsoftware.Types.encode_var_int plexsoftware.Examples.Codec.groups
written = refl

ends_at_one : end_of 5 login_frame ≡ some 1
unfolding end_of
ends_at_one = refl

pieces-IsClean : IsClean two_pieces.stream
pieces-IsClean = (λ e. ground (arith, e), tt)

delivered :
    read_packet wire plain_client two_pieces ≡ (ok (some (login_packet, login_frame)), behind)
unfolding read_packet plexsoftware.Proto.Packet.fill read_var_int plexsoftware.Examples.Codec.decode
    decode_with_len plexsoftware.Proto.Packet.slice_from plexsoftware.Proto.Packet.slice_to
    decode_without_len plexsoftware.Proto.Packet.read_packet_id_data
delivered = refl

decode_with_len-encode_with_len_example :
    decode_with_len wire plain_client login_frame ≡ ok login_packet
decode_with_len-encode_with_len_example =
    decode_with_len-encode_with_len wire laws login_packet (omega arith) plain_client login_frame
      (omega arith) (omega arith) written

read_packet-encode_with_len_example :
    (s' : Inbound) × (read_packet wire plain_client two_pieces
      ≡ (ok (some (login_packet, login_frame)), s'))
    × (remaining s' ≡ 9 ∷ [])
    × IsClean s'.stream
read_packet-encode_with_len_example =
    read_packet-encode_with_len wire laws plain_client login_packet login_frame two_pieces (9 ∷ [])
      1 (omega arith) (omega arith) (omega arith) written ends_at_one (omega arith) pieces-IsClean
      refl

read_packet-Delivers_example :
    Delivers wire plain_client (remaining two_pieces) login_packet login_frame (remaining behind)
read_packet-Delivers_example =
    read_packet-Delivers wire plain_client login_packet login_frame behind two_pieces delivered

read_packet-ne-panic_example : (read_packet wire plain_client two_pieces).0 ≢ panic
read_packet-ne-panic_example =
    read_packet-ne-panic wire plain_client refl laws two_pieces (omega arith)

-- The length 16384 in three bytes, and a first read that ends behind two of them.
abbrev long_header : List ℕ
long_header = 128 ∷ 128 ∷ 1 ∷ []

long_ends : end_of 5 long_header ≡ some 3
unfolding end_of
long_ends = refl

read_packet_split_header_example :
    (read_packet wire plain_client
      (record { buf = []; stream = chunk (128 ∷ 128 ∷ []) ∷ chunk (1 ∷ []) ∷ [] })).0
    ≡ err
read_packet_split_header_example =
    read_packet_split_header wire plain_client long_header 3 (chunk (1 ∷ []) ∷ []) long_ends
      (omega arith)

wait_for_status_hangs_example :
    wait_for_status wire packets plain_client 1000
      (record { buf = []; stream = chunk (128 ∷ 128 ∷ []) ∷ chunk (1 ∷ []) ∷ [] })
    ≡ none
wait_for_status_hangs_example =
    wait_for_status_hangs wire packets plain_client long_header 3 (chunk (1 ∷ []) ∷ []) 1000
      long_ends (omega arith)

wait_for_status_lem_example :
    wait_for_status wire packets plain_client 1 two_pieces ≡ some (ok idle_status)
wait_for_status_lem_example =
    wait_for_status_lem wire laws packets plain_client login_packet login_frame two_pieces (9 ∷ [])
      1 0 idle_status (omega arith) (omega arith) (omega arith) written ends_at_one (omega arith)
      pieces-IsClean refl refl refl

-- The length -1024, which takes five bytes, and three bytes behind it.
abbrev negative : List ℕ
negative = 128 ∷ 248 ∷ 255 ∷ 255 ∷ 15 ∷ []

negative_read : read_var_int wire (negative ++ 1 ∷ []) ≡ ok (5, negsuc 1023)
unfolding read_var_int plexsoftware.Examples.Codec.decode
negative_read = refl

late-IsClean : IsClean (chunk (2 ∷ 3 ∷ []) ∷ [])
late-IsClean = (λ e. ground (arith, e), tt)

negative_length_buffers_all_example :
    read_packet wire plain_client
      (record { buf = negative ++ 1 ∷ []; stream = chunk (2 ∷ 3 ∷ []) ∷ [] })
    ≡ (ok none, record { buf = negative ++ 1 ∷ 2 ∷ 3 ∷ []; stream = [] })
negative_length_buffers_all_example =
    negative_length_buffers_all wire plain_client
      (record { buf = negative ++ 1 ∷ []; stream = chunk (2 ∷ 3 ∷ []) ∷ [] }) 5 1023 late-IsClean
      (omega arith) negative_read (omega arith) (omega arith) (omega arith)

abbrev compressing : Client
compressing = record plain_client { compression = pos 256 }

negative_data_len_panics_example : decode_without_len wire compressing (negative ++ 1 ∷ []) ≡ panic
negative_data_len_panics_example =
    negative_data_len_panics wire compressing (negative ++ 1 ∷ []) 5 1023 refl (omega arith)
      negative_read

-- Nothing but this connection happens.
abbrev alone : ℕ → Moment
alone n = record { world = world_at n; others = λ s. s }

serve_returns_example :
    (r : Server × Next) × (serve config host 9 alone default connection ≡ some r)
serve_returns_example = serve_returns config host 9 alone default connection (omega arith)

first_round : round config host (world_at 0) default connection ≡ (default, continuing logging_in)
unfolding round read_packet plexsoftware.Proto.Packet.fill read_var_int
    plexsoftware.Examples.Codec.decode decode_with_len plexsoftware.Proto.Packet.slice_from
    plexsoftware.Proto.Packet.slice_to decode_without_len
    plexsoftware.Proto.Packet.read_packet_id_data plexsoftware.Proto.Client.from_id
    plexsoftware.Proto.Client.set_state
first_round = refl

second_round :
    round config host (world_at 1) default logging_in
    ≡ ((start config (world_at 1) default).0, joining handed_on (3 ∷ 0 ∷ 65 ∷ 66 ∷ 9 ∷ []))
unfolding round read_packet plexsoftware.Proto.Packet.fill read_var_int
    plexsoftware.Examples.Codec.decode decode_with_len plexsoftware.Proto.Packet.slice_from
    plexsoftware.Proto.Packet.slice_to decode_without_len
    plexsoftware.Proto.Packet.read_packet_id_data plexsoftware.Server.Model.ban_entry
    plexsoftware.Mc.Ban.get plexsoftware.Server.Model.is_whitelisted
second_round = refl

abbrev login_queue : List ℕ
login_queue = 3 ∷ 0 ∷ 65 ∷ 66 ∷ 9 ∷ []

history_complete_example :
    (handed_on.history ++ [] ≡ 2 ∷ 0 ∷ 2 ∷ 3 ∷ 0 ∷ 65 ∷ 66 ∷ 9 ∷ [])
    × (login_queue ++ [] ≡ 3 ∷ 0 ∷ 65 ∷ 66 ∷ 9 ∷ [])
history_complete_example =
    history_complete config host (world_at 0) (world_at 1) default default default
      (start config (world_at 1) default).0 connection logging_in handed_on
      (3 ∷ 0 ∷ 65 ∷ 66 ∷ 9 ∷ []) refl first_round refl second_round

woken :
    (handle config host (world_at 1) login_packet login_frame default logging_in).0.state ≡ starting
unfolding handle plexsoftware.Server.Model.ban_entry plexsoftware.Mc.Ban.get
    plexsoftware.Server.Model.is_whitelisted start plexsoftware.Server.Model.update_state_from
woken = refl

wakes : (handle config host (world_at 1) login_packet login_frame default logging_in).0 ≢ default
wakes e = cc (woken, ap (λ (s : Server). s.state) e)

handle-ne_example :
    (logging_in.client.state ≡ login)
    × (config.lockout.enabled ≡ false)
    × (is_banned_ip dates 1 7 default ≡ false)
    × (admitted default (some (65 ∷ 66 ∷ [])) ≡ true)
    × ((handle config host (world_at 1) login_packet login_frame default logging_in).0
        ≡ (start config (world_at 1) default).0)
handle-ne_example =
    handle-ne config host (world_at 1) login_packet login_frame default logging_in wakes
