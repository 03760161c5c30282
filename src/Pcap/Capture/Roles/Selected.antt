-- ===== src/Pcap/Capture/Roles/Selected.antt =====
-- The selection of connections keeps the requests that make their connection one of the role.
use coroutines_kafka_consume.Prelude.{
  ◌≡◌, refl, sym, ap, ◌∙◌, Bool, true, false, ◌&&◌, ◌||◌, Option, some, List, [], ◌∷◌, ◌++◌, arith,
  ◌==◌, beq_self, if◌then◌else◌, if_ind, Bool-cases, inl, inr, Every, Every-append, Every-imp,
}
use coroutines_kafka_consume.Prelude.Int.{ℤ, pos, negsuc, int_eq}
use coroutines_kafka_consume.Dict.{Dict, lookup, insert, lookup-insert}
use coroutines_kafka_consume.Pcap.Capture.{
  Row, Connection, Capture, no_rows, Message, Direction, integer, minus_one, is_negative, is_member,
  add_api, request_api_of, or_new, see_connection, message_of, messages_of, direction_of,
  api_key_of, scan_row, scan_rows,
}
use coroutines_kafka_consume.Pcap.Capture.Roles.{
  Role, consumer_apis, intersects, connection_role, role_of, role_beq, fits, streams,
  fitting_streams, or_all, Warning, with_tls, is_one_sided, select,
}

-- The APIs by which a connection is one of the role.
abbrev pub apis_of : Role → List ℤ
apis_of Role.producer = pos 0 ∷ []
apis_of Role.consumer = consumer_apis
apis_of _ = []

apis_at : ℤ → Dict ℤ Connection → List ℤ
apis_at stream connections = (or_new (lookup stream connections)).request_apis

-- A request is one of those of its connection.
IsRecorded : Dict ℤ Connection → Message → Type 0
IsRecorded connections message =
    message.direction ≡ Direction.request
    → is_negative message.api_key ≡ false
    → is_member message.api_key (apis_at message.stream connections) ≡ true

is_member-append : (n a : ℤ) (ns : List ℤ) → is_member n (ns ++ (a ∷ [])) ≡ is_member n ns || a == n
is_member-append n a [] = ground arith
is_member-append n a (m ∷ ns) = ground (arith, is_member-append n a ns)

is_member-add_api :
    (n a : ℤ) (apis : List ℤ) → is_member n (add_api a apis) ≡ is_member n apis || a == n
is_member-add_api n a apis = ground (arith, is_member-append n a apis, int_eq.equal_iff a n)

see_connection-keeps :
    (row : Row) (c : Connection) (n : ℤ)
    → is_member n c.request_apis ≡ true
    → is_member n (see_connection row c).request_apis ≡ true
unfolding see_connection
see_connection-keeps row c n h =
    ground (arith, h, is_member-add_api n (request_api_of row) c.request_apis)

see_connection-adds :
    (row : Row) (c : Connection)
    → is_negative (request_api_of row) ≡ false
    → is_member (request_api_of row) (see_connection row c).request_apis ≡ true
unfolding see_connection
see_connection-adds row c h = ground (
  arith,
  h,
  is_member-add_api (request_api_of row) (request_api_of row) c.request_apis,
  beq_self (request_api_of row),
)

-- The connection of a stream is seen, which may be that of the message.
replaced :
    (same : Bool) (n : ℤ) (c : Connection) (o : Option Connection)
    → (same ≡ true → is_member n c.request_apis ≡ true)
    → is_member n (or_new o).request_apis ≡ true
    → is_member n (or_new (if same then some c else o)).request_apis ≡ true
replaced true n c o new old = new refl
replaced false n c o new old = old

seen-IsRecorded :
    (stream : ℤ) (row : Row) (connections : Dict ℤ Connection) (m : Message)
    → IsRecorded connections m
    → IsRecorded
        (insert stream (see_connection row (or_new (lookup stream connections))) connections)
        m
unfolding IsRecorded apis_at
seen-IsRecorded stream row connections m h is_request known =
    let c = see_connection row (or_new (lookup stream connections)) in
    let old = h is_request known in
    ap (λ (o : Option Connection). is_member m.api_key (or_new o).request_apis)
      (lookup-insert stream m.stream c connections)
    ∙ replaced (stream == m.stream) m.api_key c (lookup m.stream connections)
        (λ same. see_connection-keeps row (or_new (lookup stream connections)) m.api_key (
          ap (λ (k : ℤ). is_member m.api_key (apis_at k connections))
            ((int_eq.equal_iff stream m.stream).0 same)
          ∙ old))
        old

new-IsRecorded :
    (stream : ℤ) (row : Row) (connections : Dict ℤ Connection)
    → IsRecorded
        (insert stream (see_connection row (or_new (lookup stream connections))) connections)
        (message_of stream row)
unfolding IsRecorded apis_at message_of
new-IsRecorded stream row connections is_request known =
    let c = see_connection row (or_new (lookup stream connections)) in
    let key : api_key_of (direction_of row) row ≡ request_api_of row =
      ap (λ (d : Direction). api_key_of d row) is_request in
    ap
      (λ (o : Option Connection). is_member (message_of stream row).api_key (or_new o).request_apis)
      (lookup-insert stream stream c connections)
    ∙ (ap
          (λ (same : Bool).
            is_member (message_of stream row).api_key
              (or_new (if same then some c else lookup stream connections)).request_apis)
          (beq_self stream)
        ∙ (ap (λ (k : ℤ). is_member k c.request_apis) key
            ∙ see_connection-adds row (or_new (lookup stream connections))
                (sym (ap is_negative key) ∙ known)))

messages_of-IsRecorded :
    (stream : ℤ) (row : Row) (connections : Dict ℤ Connection) (lengths : List ℤ)
    → Every
        (IsRecorded
          (insert stream (see_connection row (or_new (lookup stream connections))) connections))
        (messages_of stream row lengths)
messages_of-IsRecorded stream row connections [] = tt
messages_of-IsRecorded stream row connections (n ∷ ns) = (new-IsRecorded stream row connections, tt)

AllRecorded : Capture → Type 0
AllRecorded s = Every (IsRecorded s.connections) s.messages

scan_row-AllRecorded : (row : Row) (s : Capture) → AllRecorded s → AllRecorded (scan_row row s)
unfolding AllRecorded scan_row
scan_row-AllRecorded row s h =
    let stream = integer row.stream minus_one in
    if_ind AllRecorded (is_negative stream) h (
      Every-append _ s.messages (messages_of stream row row.kafka_len)
        (Every-imp (IsRecorded s.connections) _ s.messages
          (λ m. seen-IsRecorded stream row s.connections m) h)
        (messages_of-IsRecorded stream row s.connections row.kafka_len))

scan_rows-AllRecorded :
    (rows : List Row) (s : Capture) → AllRecorded s → AllRecorded (scan_rows rows s)
unfolding scan_rows
scan_rows-AllRecorded [] s h = h
scan_rows-AllRecorded (row ∷ rows) s h =
    scan_rows-AllRecorded rows (scan_row row s) (scan_row-AllRecorded row s h)

intersects-true :
    (n : ℤ) (apis others : List ℤ)
    → is_member n apis ≡ true
    → is_member n others ≡ true
    → intersects apis others ≡ true
intersects-true n [] others h k = absurd (ground (arith, h))
intersects-true n (a ∷ apis) others h k =
    ground (arith, h, k, int_eq.equal_iff a n, intersects-true n apis others)

producer-fits :
    (p c : Bool)
    → p ≡ true
    → (role_beq (role_of p c) Role.producer || role_beq (role_of p c) Role.mixed) ≡ true
producer-fits true true h = refl
producer-fits true false h = refl
producer-fits false c h = absurd (ground (arith, h))

consumer-fits :
    (p c : Bool)
    → c ≡ true
    → (role_beq (role_of p c) Role.consumer || role_beq (role_of p c) Role.mixed) ≡ true
consumer-fits true true h = refl
consumer-fits false true h = refl
consumer-fits p false h = absurd (ground (arith, h))

-- A request of the role makes its connection one of it.
request-fits :
    (role : Role) (n : ℤ) (c : Connection)
    → is_member n (apis_of role) ≡ true
    → is_member n c.request_apis ≡ true
    → fits role c ≡ true
unfolding connection_role
request-fits Role.producer n c h k =
    producer-fits (is_member (pos 0) c.request_apis) (intersects consumer_apis c.request_apis)
      (ground (arith, intersects-true n (pos 0 ∷ []) c.request_apis h k))
request-fits Role.consumer n c h k =
    consumer-fits (is_member (pos 0) c.request_apis) (intersects consumer_apis c.request_apis)
      (intersects-true n consumer_apis c.request_apis h k)
request-fits Role.mixed n c h k = absurd (ground (arith, h))
request-fits Role.unknown n c h k = absurd (ground (arith, h))

request-known : (role : Role) (n : ℤ) → is_member n (apis_of role) ≡ true → is_negative n ≡ false
request-known Role.producer (pos n) h = ground arith
request-known Role.producer (negsuc n) h = absurd (ground (arith, h))
request-known Role.consumer (pos n) h = ground arith
request-known Role.consumer (negsuc n) h = absurd (ground (arith, h))
request-known Role.mixed n h = absurd (ground (arith, h))
request-known Role.unknown n h = absurd (ground (arith, h))

in_front :
    (fit : Bool) (s stream : ℤ) (others : List ℤ)
    → fit ≡ true
    → (s == stream) ≡ true
    → is_member stream (if fit then s ∷ others else others) ≡ true
in_front true s stream others h same = ap (λ (b : Bool). b || is_member stream others) same
in_front false s stream others h same = absurd (ground (arith, h))

behind :
    (fit : Bool) (s stream : ℤ) (others : List ℤ)
    → is_member stream others ≡ true
    → is_member stream (if fit then s ∷ others else others) ≡ true
behind true s stream others h = ground (arith, h)
behind false s stream others h = h

fitting_streams-fits :
    (role : Role) (n stream : ℤ) (connections : Dict ℤ Connection)
    → is_member n (apis_of role) ≡ true
    → is_member n (apis_at stream connections) ≡ true
    → (is_member stream (fitting_streams role connections) ≡ true)
      × (is_member stream (streams connections) ≡ true)
unfolding apis_at fitting_streams lookup
fitting_streams-fits role n stream [] h k = absurd (ground (arith, k))
fitting_streams-fits role n stream ((s, c) ∷ rest) h k =
    let at = λ (same : Bool).
      is_member n (or_new (if same then some c else lookup stream rest)).request_apis in
    elim (Bool-cases (s == stream)) [
      | inl same ↦
          let fit = request-fits role n c h (sym (ap at same) ∙ k) in
          (
            in_front (fits role c) s stream (fitting_streams role rest) fit same,
            in_front true s stream (streams rest) refl same,
          )
      | inr other ↦
          let (fit, known) = fitting_streams-fits role n stream rest h (sym (ap at other) ∙ k) in
          (
            behind (fits role c) s stream (fitting_streams role rest) fit,
            behind true s stream (streams rest) known,
          )
    ]

or_all-member :
    (stream : ℤ) (all fitting : List ℤ)
    → is_member stream fitting ≡ true
    → is_member stream (or_all all fitting).0 ≡ true
or_all-member stream all [] h = absurd (ground (arith, h))
or_all-member stream all (s ∷ fitting) h = h

with_tls-member :
    (tls : Bool) (stream : ℤ) (all : List ℤ) (selection : List ℤ × List Warning)
    → is_member stream all ≡ true
    → is_member stream selection.0 ≡ true
    → is_member stream (with_tls tls all selection).0 ≡ true
with_tls-member true stream all selection h k = h
with_tls-member false stream all selection h k = k

select-member :
    (role : Role) (scoped : Bool) (s : Capture) (m : Message)
    → is_member m.api_key (apis_of role) ≡ true
    → is_member m.api_key (apis_at m.stream s.connections) ≡ true
    → is_member m.stream (select role scoped s).0 ≡ true
unfolding select
select-member role scoped s m h k =
    let all = streams s.connections in
    let (fitting, known) = fitting_streams-fits role m.api_key m.stream s.connections h k in
    with_tls-member s.tls_detected m.stream all _ known (
      or_all-member m.stream all _ (
        if_ind (λ (chosen : List ℤ). is_member m.stream chosen ≡ true) (is_one_sided role && scoped)
          known fitting))

-- Whatever rows a capture has, scoped to its role or not, with TLS or without: a message that is a
-- request by an API of the role (Produce for a producer; Fetch and the APIs of groups and offsets for
-- a consumer) is on a selected connection.
pub select-requests :
    (role : Role) (scoped : Bool) (rows : List Row)
    → Every
        (λ (m : Message).
          m.direction ≡ Direction.request
          → is_member m.api_key (apis_of role) ≡ true
          → is_member m.stream (select role scoped (scan_rows rows no_rows)).0 ≡ true)
        (scan_rows rows no_rows).messages
unfolding AllRecorded IsRecorded
select-requests role scoped rows =
    let s = scan_rows rows no_rows in
    Every-imp (IsRecorded s.connections) _ s.messages
      (λ m h is_request wanted.
        select-member role scoped s m wanted (h is_request (request-known role m.api_key wanted)))
      (scan_rows-AllRecorded rows no_rows tt)
