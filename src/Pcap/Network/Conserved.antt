-- ===== src/Pcap/Network/Conserved.antt =====
-- The bytes of well-formed frames, as the counters of the layers have them.
use coroutines_kafka_consume.Prelude.{
  ℕ, ◌+◌, ◌≡◌, refl, ap, true, List, [], ◌∷◌, arith, if_by, Every,
}
use coroutines_kafka_consume.Prelude.Int.{
  ℤ, pos, int_eq, pos_part, neg_part, ◌+ℤ◌, ◌-ℤ◌, max_ℤ, eq_of_parts, +ℤ_parts,
}
use coroutines_kafka_consume.Pcap.Capture.{Row, integer, minus_one, is_member}
use coroutines_kafka_consume.Pcap.Network.{
  Network, no_frames, frame_length, ip_header, ip_length, add_frame, add_frames,
  network_header_bytes,
}

-- A frame on the wire, by the numbers of its bytes: outside the IP packet, the options of the IP
-- header (of IPv4, whose header has 20 bytes without them; that of IPv6 has 40), the TCP header, and
-- the TCP payload.
pub data Frame : Type 0 where
  ipv4 : ℕ → ℕ → ℕ → ℕ → Frame
  ipv6 : ℕ → ℕ → ℕ → Frame

-- The row of a frame: IPv4 has the length of the packet and of its header in columns of their own,
-- IPv6 only the length of what follows its header.
pub record Columns (row : Row) (frame_len tcp_hdr_len tcp_len : ℕ)
    (ip_len ip_hdr_len ipv6_plen : List ℤ) : Type 0 where
  pub frame_len_column : row.frame_len ≡ pos frame_len ∷ []
  pub tcp_hdr_len_column : row.tcp_hdr_len ≡ pos tcp_hdr_len ∷ []
  pub tcp_len_column : row.tcp_len ≡ pos tcp_len ∷ []
  pub ip_len_column : row.ip_len ≡ ip_len
  pub ip_hdr_len_column : row.ip_hdr_len ≡ ip_hdr_len
  pub ipv6_plen_column : row.ipv6_plen ≡ ipv6_plen

abbrev pub Describes : Row → Frame → Type 0
Describes row (ipv4 link options tcp payload) =
    Columns row (link + (20 + options) + tcp + payload) tcp payload
      (pos (20 + options + tcp + payload) ∷ []) (pos (20 + options) ∷ []) []
Describes row (ipv6 link tcp payload) =
    Columns row (link + 40 + tcp + payload) tcp payload [] [] (pos (tcp + payload) ∷ [])

abbrev pub IsFrame : Row → Type 0
IsFrame row = (frame : Frame) × Describes row frame

-- What the counters take from the row.
record Layers (row : Row) : Type 0 where
  link : ℕ
  ip : ℕ
  tcp : ℕ
  payload : ℕ
  frame_eq : frame_length row ≡ pos (link + ip + tcp + payload)
  packet_eq : ip_length row ≡ pos (ip + tcp + payload)
  ip_eq : ip_header row ≡ pos ip
  tcp_eq : integer row.tcp_hdr_len (pos 0) ≡ pos tcp
  payload_eq : integer row.tcp_len (pos 0) ≡ pos payload

layers : (row : Row) (frame : Frame) → Describes row frame → Layers row
unfolding ip_length ◌+ℤ◌
layers row (ipv4 link options tcp payload) c = record {
  link = link;
  ip = 20 + options;
  tcp = tcp;
  payload = payload;
  frame_eq = ap (λ (ns : List ℤ). integer ns (pos 0)) c.frame_len_column;
  packet_eq = rw (c.ip_len_column, c.ipv6_plen_column) (ground arith);
  ip_eq = rw (c.ip_hdr_len_column) refl;
  tcp_eq = ap (λ (ns : List ℤ). integer ns (pos 0)) c.tcp_hdr_len_column;
  payload_eq = ap (λ (ns : List ℤ). integer ns (pos 0)) c.tcp_len_column;
}
layers row (ipv6 link tcp payload) c = record {
  link = link;
  ip = 40;
  tcp = tcp;
  payload = payload;
  frame_eq = ap (λ (ns : List ℤ). integer ns (pos 0)) c.frame_len_column;
  packet_eq = rw (c.ip_len_column, c.ipv6_plen_column) (ground arith);
  ip_eq = rw (c.ip_hdr_len_column, c.ipv6_plen_column) (ground arith);
  tcp_eq = ap (λ (ns : List ℤ). integer ns (pos 0)) c.tcp_hdr_len_column;
  payload_eq = ap (λ (ns : List ℤ). integer ns (pos 0)) c.tcp_len_column;
}

outside :
    (link ip tcp payload : ℕ)
    → max_ℤ (pos 0) (pos (link + ip + tcp + payload) -ℤ pos (ip + tcp + payload)) ≡ pos link
unfolding ◌-ℤ◌
outside link ip tcp payload = ground arith

-- What a frame adds keeps the headers and the payload together at the wire bytes.
moved :
    (l i t p w : ℤ) (link ip tcp payload : ℕ)
    → ((l +ℤ i) +ℤ t) +ℤ p ≡ w
    → (((l +ℤ pos link) +ℤ (i +ℤ pos ip)) +ℤ (t +ℤ pos tcp)) +ℤ (p +ℤ pos payload)
      ≡ w +ℤ pos (link + ip + tcp + payload)
moved l i t p w link ip tcp payload h = eq_of_parts _ _ (
    omega (
      arith,
      ap pos_part h,
      ap neg_part h,
      +ℤ_parts l i,
      +ℤ_parts (l +ℤ i) t,
      +ℤ_parts ((l +ℤ i) +ℤ t) p,
      +ℤ_parts l (pos link),
      +ℤ_parts i (pos ip),
      +ℤ_parts t (pos tcp),
      +ℤ_parts p (pos payload),
      +ℤ_parts w (pos (link + ip + tcp + payload)),
      +ℤ_parts (l +ℤ pos link) (i +ℤ pos ip),
      +ℤ_parts ((l +ℤ pos link) +ℤ (i +ℤ pos ip)) (t +ℤ pos tcp),
      +ℤ_parts (((l +ℤ pos link) +ℤ (i +ℤ pos ip)) +ℤ (t +ℤ pos tcp)) (p +ℤ pos payload),
    ))

-- The headers and the payload are the frame.
abbrev pub IsConserved : Network → Type 0
IsConserved network =
    network_header_bytes network +ℤ network.tcp_payload_bytes ≡ network.captured_wire_bytes

add_frame-IsConserved :
    (row : Row) (network : Network)
    → IsFrame row
    → IsConserved network
    → IsConserved (add_frame row network)
unfolding add_frame network_header_bytes
add_frame-IsConserved row network (frame, described) h =
    let a = layers row frame described in
    let link_eq : max_ℤ (pos 0) (frame_length row -ℤ ip_length row) ≡ pos a.link =
      rw (a.frame_eq, a.packet_eq) (outside a.link a.ip a.tcp a.payload) in
    rw (link_eq, a.frame_eq, a.ip_eq, a.tcp_eq, a.payload_eq)
      (moved network.link_layer_bytes network.ip_header_bytes network.tcp_header_bytes
        network.tcp_payload_bytes network.captured_wire_bytes a.link a.ip a.tcp a.payload h)

-- The selected rows are rows of frames.
abbrev pub AllFrames : List ℤ → List Row → Type 0
AllFrames selected =
    Every (λ (row : Row). is_member (integer row.stream minus_one) selected ≡ true → IsFrame row)

add_frames-keeps :
    (selected : List ℤ) (rows : List Row) (network : Network)
    → AllFrames selected rows
    → IsConserved network
    → IsConserved (add_frames selected rows network)
unfolding add_frames
add_frames-keeps selected [] network frames h = h
add_frames-keeps selected (row ∷ rows) network frames h =
    add_frames-keeps selected rows _ frames.1 (
      if_by IsConserved (is_member (integer row.stream minus_one) selected)
        (λ chosen. add_frame-IsConserved row network (frames.0 chosen) h) (λ other. h))

-- If each selected row has the columns of an IPv4 or IPv6 frame that carries TCP (with any bytes
-- outside the IP packet, any IPv4 options, and for IPv6 only the length behind the header of 40
-- bytes), then the header bytes of all layers and the TCP payload are together exactly the captured
-- wire bytes.
pub add_frames-IsConserved :
    (selected : List ℤ) (rows : List Row)
    → AllFrames selected rows
    → IsConserved (add_frames selected rows no_frames)
unfolding network_header_bytes ◌+ℤ◌
add_frames-IsConserved selected rows frames = add_frames-keeps selected rows no_frames frames refl
