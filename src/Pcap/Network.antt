-- ===== src/Pcap/Network.antt =====
-- The network counters of `analyze_capture` of analyze-pcap.py, over the rows of the selected
-- connections. `network_overhead_percent` is not modelled.
pub mod Conserved
use coroutines_kafka_consume.Prelude.{
  ℕ, ◌+◌, ◌*◌, Bool, true, false, not, ◌&&◌, List, [], ◌∷◌, HasEq, ◌==◌, if◌then◌else◌, length,
}
use coroutines_kafka_consume.Prelude.Int.{ℤ, pos, negsuc, ◌+ℤ◌, ◌-ℤ◌, ltb_ℤ, max_ℤ, int_eq}
use coroutines_kafka_consume.Pcap.Capture.{
  Row, integer, minus_one, is_negative, is_member, sum_with,
}

pub record Network : Type 0 where
  pub frames : ℕ
  pub captured_wire_bytes : ℤ
  pub captured_bytes : ℤ
  pub truncated_frames : ℕ
  pub link_layer_bytes : ℤ
  pub ip_header_bytes : ℤ
  pub tcp_header_bytes : ℤ
  pub tcp_payload_bytes : ℤ
  pub retransmitted_tcp_payload_bytes : ℤ
  pub tls_record_bytes : ℤ
  pub tls_record_header_bytes : ℕ

abbrev pub no_frames : Network
no_frames = record {
  frames = 0;
  captured_wire_bytes = pos 0;
  captured_bytes = pos 0;
  truncated_frames = 0;
  link_layer_bytes = pos 0;
  ip_header_bytes = pos 0;
  tcp_header_bytes = pos 0;
  tcp_payload_bytes = pos 0;
  retransmitted_tcp_payload_bytes = pos 0;
  tls_record_bytes = pos 0;
  tls_record_header_bytes = 0;
}

abbrev pub frame_length : Row → ℤ
frame_length row = integer row.frame_len (pos 0)

abbrev pub captured_length : Row → ℤ
captured_length row = integer row.frame_cap_len (pos 0)

abbrev pub ipv6_payload : Row → ℤ
ipv6_payload row = integer row.ipv6_plen minus_one

abbrev pub ip_header : Row → ℤ
ip_header row = integer row.ip_hdr_len (if is_negative (ipv6_payload row) then pos 0 else pos 40)

-- The length of the IP packet, which IPv6 gives without its header of 40 bytes.
unfoldable pub ip_length : Row → ℤ
unfolding ◌+ℤ◌
ip_length row =
    let declared = integer row.ip_len (pos 0) in
    if declared == pos 0 && not (is_negative (ipv6_payload row))
    then pos 40 +ℤ ipv6_payload row
    else declared

abbrev pub count_true : Bool → ℕ
count_true true = 1
count_true false = 0

unfoldable pub add_frame : Row → Network → Network
unfolding ip_length ◌+ℤ◌ ◌-ℤ◌
add_frame row network =
    let tcp_payload = integer row.tcp_len (pos 0) in
    record {
      frames = network.frames + 1;
      captured_wire_bytes = network.captured_wire_bytes +ℤ frame_length row;
      captured_bytes = network.captured_bytes +ℤ captured_length row;
      truncated_frames =
          network.truncated_frames + count_true (ltb_ℤ (captured_length row) (frame_length row));
      link_layer_bytes =
          network.link_layer_bytes +ℤ max_ℤ (pos 0) (frame_length row -ℤ ip_length row);
      ip_header_bytes = network.ip_header_bytes +ℤ ip_header row;
      tcp_header_bytes = network.tcp_header_bytes +ℤ integer row.tcp_hdr_len (pos 0);
      tcp_payload_bytes = network.tcp_payload_bytes +ℤ tcp_payload;
      retransmitted_tcp_payload_bytes =
          network.retransmitted_tcp_payload_bytes
          +ℤ (if row.retransmission then tcp_payload else pos 0);
      tls_record_bytes = network.tls_record_bytes +ℤ sum_with (pos 5) row.tls_record_length;
      tls_record_header_bytes = network.tls_record_header_bytes + 5 * length row.tls_record_length;
    }

-- for row in rows: if stream not in selected: continue
unfoldable pub add_frames : List ℤ → List Row → Network → Network
unfolding add_frame
add_frames selected [] network = network
add_frames selected (row ∷ rows) network =
    add_frames selected rows
      (if is_member (integer row.stream minus_one) selected then add_frame row network else network)

-- network["network_header_bytes"]
unfoldable pub network_header_bytes : Network → ℤ
unfolding ◌+ℤ◌
network_header_bytes network =
    (network.link_layer_bytes +ℤ network.ip_header_bytes) +ℤ network.tcp_header_bytes
