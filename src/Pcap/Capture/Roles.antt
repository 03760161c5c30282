-- ===== src/Pcap/Capture/Roles.antt =====
-- `connection_role` and the selection of connections in `analyze_capture` of analyze-pcap.py.
pub mod Selected
use coroutines_kafka_consume.Prelude.{
  Bool, true, false, not, ◌&&◌, ◌||◌, List, [], ◌∷◌, ◌++◌, HasEq, ◌==◌, if◌then◌else◌,
}
use coroutines_kafka_consume.Prelude.Int.{ℤ, pos, int_eq}
use coroutines_kafka_consume.Dict.{Dict}
use coroutines_kafka_consume.Pcap.Capture.{Connection, Capture, Message, is_member}

pub data Role : Type 0 where
  producer consumer mixed unknown : Role

abbrev pub consumer_apis : List ℤ
consumer_apis = pos 1 ∷ pos 2 ∷ pos 8 ∷ pos 9 ∷ pos 10 ∷ pos 11 ∷ pos 12 ∷ pos 13 ∷ pos 14 ∷ []

-- bool(a & b) of sets
abbrev pub intersects : List ℤ → List ℤ → Bool
intersects [] apis = false
intersects (a ∷ others) apis = is_member a apis || intersects others apis

abbrev pub role_of : Bool → Bool → Role
role_of true true = Role.mixed
role_of true false = Role.producer
role_of false true = Role.consumer
role_of false false = Role.unknown

unfoldable pub connection_role : List ℤ → Role
connection_role request_apis =
    role_of (is_member (pos 0) request_apis) (intersects consumer_apis request_apis)

abbrev pub role_beq : Role → Role → Bool
role_beq Role.producer Role.producer = true
role_beq Role.consumer Role.consumer = true
role_beq Role.mixed Role.mixed = true
role_beq Role.unknown Role.unknown = true
role_beq _ _ = false

-- stream_role in {role, "mixed"}
abbrev pub fits : Role → Connection → Bool
fits role connection =
    let stream_role = connection_role connection.request_apis in
    role_beq stream_role role || role_beq stream_role Role.mixed

abbrev pub streams : Dict ℤ Connection → List ℤ
streams [] = []
streams ((stream, connection) ∷ rest) = stream ∷ streams rest

unfoldable pub fitting_streams : Role → Dict ℤ Connection → List ℤ
unfolding connection_role
fitting_streams role [] = []
fitting_streams role ((stream, connection) ∷ rest) =
    let others = fitting_streams role rest in
    if fits role connection then stream ∷ others else others

pub data Warning : Type 0 where
  no_classified_connection tls_traffic : Warning

-- if not selected: selected = set(connections), with a warning
abbrev pub or_all : List ℤ → List ℤ → List ℤ × List Warning
or_all all [] = (all, Warning.no_classified_connection ∷ [])
or_all all (stream ∷ selected) = (stream ∷ selected, [])

-- if tls_detected: the same, with another warning
abbrev pub with_tls : Bool → List ℤ → List ℤ × List Warning → List ℤ × List Warning
with_tls true all (selected, warnings) = (all, warnings ++ (Warning.tls_traffic ∷ []))
with_tls false all selection = selection

abbrev pub is_one_sided : Role → Bool
is_one_sided role = role_beq role Role.producer || role_beq role Role.consumer

-- `role_scoped` captures have the traffic of their role only.
unfoldable pub select : Role → Bool → Capture → List ℤ × List Warning
unfolding fitting_streams
select role role_scoped s =
    let all = streams s.connections in
    let fitting =
      if is_one_sided role && role_scoped then all else fitting_streams role s.connections in
    with_tls s.tls_detected all (or_all all fitting)

-- [message for message in messages if message["stream"] in selected]
unfoldable pub selected_messages : List ℤ → List Message → List Message
selected_messages selected [] = []
selected_messages selected (message ∷ rest) =
    let others = selected_messages selected rest in
    if is_member message.stream selected then message ∷ others else others
