-- ===== src/Tests/TcpStream.antt =====
-- Streams of TCP segments.
use genet.Base.{ℕ, ◌≡◌, refl, List, [], ◌∷◌, ◌++◌, some, arith}
use genet.Base.Int.{pos, to_bits}
use genet.Abi.Result.{ok}
use genet.Abi.Slice.{ByteSlice}
use genet.Abi.Variant.{
  try_into_slice, try_into_u64, try_into_u32, try_into_u16, try_into_u8, uint64, slice,
}
use genet.Abi.Attr.{Attr, byte_range, try_get, attr_value, encode, decode as attr_decode}
use genet.Abi.Layer.{
  Layer, Parent, find_payload, stack_attr, attr, resolve, find_attr, add_attr, add_payload,
}
use genet.Packages.{payload, attr_with, done}
use genet.Packages.PcapFile.{value_class}
use genet.Sdk.Cast.{cursor}
use genet.Packages.TcpStream.{
  Stream, Segment, new, fetch, u32_limit, usize_limit, step, fetch_from, receive, follow, store,
  put, insert, syn, last_seq, add_usize,
}
use genet.Packages.TcpStream.Fetching.{fetch-IsRun, IsRun}
use genet.Packages.TcpStream.Stalling.{run_phase, fresh}
use genet.Packages.TcpStream.Worker.{
  StreamId, Worker, stream_attr, decode, decode_payload, decode_segment, stream_id,
  segment as segment_of, value_of, ◌>>=◌, deliver, entry, find_stream, assign, same_id,
  add_payloads,
}
use genet.Packages.TcpStream.Demultiplexing.{Calls, handed_on, segments_of, handed_on-run_phase}
use genet.Packages.TcpStream.Numbering.{AreNumbered, decode-AreNumbered}

abbrev segment : ℕ → ℕ → ByteSlice → Segment
segment seq flags bytes = record { seq = seq; window = 10; flags = flags; bytes = bytes }

abbrev client : StreamId
client = record { parent_src = 10 ∷ []; parent_dst = 20 ∷ []; src = 4000; dst = 80 }

abbrev server : StreamId
server = record { parent_src = 20 ∷ []; parent_dst = 10 ∷ []; src = 80; dst = 4000 }

-- Both sides shake hands, and the client sends two segments of two bytes each.
abbrev handshake : Calls
handshake =
    (client, segment 100 2 [])
    ∷ (server, segment 500 18 [])
    ∷ (client, segment 101 16 [])
    ∷ (client, segment 101 16 (1 ∷ 2 ∷ []))
    ∷ (client, segment 103 16 (3 ∷ 4 ∷ []))
    ∷ []

handed_on-run_phase_example :
    handed_on client handshake [] ≡ run_phase (segments_of client handshake) fresh
unfolding u32_limit usize_limit same_id
handed_on-run_phase_example =
    handed_on-run_phase client handshake
      (omega arith, (omega arith, (omega arith, (omega arith, tt)))) (omega arith)

-- The second of them does not come.
second_segment : run_phase (segments_of client handshake) fresh ≡ (1 ∷ 2 ∷ []) ∷ []
unfolding same_id syn u32_limit
second_segment = refl

abbrev two_slices : Stream
two_slices = record {
  id = 0;
  seq = pos 7;
  len = 5;
  offset = 2;
  slices = (2, 1 ∷ 1 ∷ []) ∷ (4, 3 ∷ []) ∷ (9, 5 ∷ []) ∷ [];
}

fetch-IsRun_example :
    IsRun two_slices.offset two_slices.slices
      ((fetch two_slices).1.offset, (fetch two_slices).0, (fetch two_slices).1.slices)
unfolding usize_limit
fetch-IsRun_example = fetch-IsRun two_slices (omega arith)

abbrev attrs : List Attr
attrs =
    attr_with (value_class "tcp.src" "") (uint64 4000)
    ∷ attr_with (value_class "tcp.dst" "") (uint64 80)
    ∷ attr_with (value_class "tcp.seq" "") (uint64 100)
    ∷ attr_with (value_class "tcp.window" "") (uint64 10)
    ∷ attr_with (value_class "tcp.flags" "") (uint64 2)
    ∷ attr_with (value_class "_.src" "") (slice (10 ∷ []))
    ∷ attr_with (value_class "_.dst" "") (slice (20 ∷ []))
    ∷ []

abbrev tcp_layer : Layer
tcp_layer = record {
  class = record { id = "tcp"; aliases = []; headers = [] };
  bytes = [];
  attrs = attrs;
  payloads = payload (1 ∷ 2 ∷ []) "@data:tcp" ∷ [];
}

abbrev parent : Parent
parent = record { layer = tcp_layer; children = [] }

abbrev float_bits : ℕ → ℕ
float_bits n = n

-- After its SYN, which carries two bytes.
abbrev worker : Worker
worker = (client, record { id = 0; seq = pos 100; len = 2; offset = 2; slices = [] }) ∷ []

abbrev parent_after : Parent
parent_after = record {
  layer = record tcp_layer {
    attrs = attrs ++ stream_attr float_bits cursor ∷ [];
    payloads = payload (1 ∷ 2 ∷ []) "@data:tcp" ∷ payload (1 ∷ 2 ∷ []) "@stream:tcp" ∷ [];
  };
  children = [];
}

decoded : decode float_bits cursor (tcp_layer ∷ []) parent [] ≡ some (worker, parent_after, ok done)
unfolding decode decode_payload decode_segment stream_id segment_of value_of ◌>>=◌ find_payload
    stack_attr attr resolve find_attr try_get attr_value encode attr_decode to_bits try_into_slice
    try_into_u64 try_into_u32 try_into_u16 try_into_u8 deliver entry find_stream assign same_id step
    receive follow store put insert fetch fetch_from syn last_seq add_usize new u32_limit
    usize_limit add_payloads add_attr add_payload byte_range
decoded = refl

decode-AreNumbered_example : AreNumbered 0 worker
decode-AreNumbered_example =
    decode-AreNumbered cursor float_bits (tcp_layer ∷ []) parent parent_after [] worker (ok done)
      decoded tt
