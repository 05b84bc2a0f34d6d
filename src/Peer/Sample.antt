-- ===== src/Peer/Sample.antt =====
-- A small connection for the examples, whose octets arrive two at a time, and a message format that
-- meets the laws assumed of btclib.
use mathlib.Core.List.{append_assoc}
use bitcoin_node_tests.Base.{
  ℕ, zero, suc, ◌+◌, ◌≤◌, ◌<◌, ◌≡◌, refl, sym, ap, ◌⊎◌, inl, inr, true, false, none, [], ◌∷◌, ◌++◌,
  arith, Bool-cases, length, drop, take, leb, if◌then◌else◌, length-append, List,
}
use bitcoin_node_tests.Base.Bytes.{Bytes, codes, Text}
use bitcoin_node_tests.Peer.{
  version, Message, P2p, Socket, Parsed, Session, whole, incomplete, Payload, ping, pong, other,
  verack, wtxid_relay, send_addr_v2,
}
use bitcoin_node_tests.Peer.Framing.{FramingLaws}
use bitcoin_node_tests.Peer.Stream.{StreamLaws, Received}
use bitcoin_node_tests.Base.Exec.{Result, ok}
use bitcoin_node_tests.Peer.Opening.{adopt}
use bitcoin_node_tests.Base.Slices.{drop-length, take-append, drop-append}
use bitcoin_node_tests.Peer.Quiet.{SendLaws}

-- The time, what is to arrive, and what went out.
pub record Line : Type 0 where
  pub now : ℕ
  pub left : Bytes
  pub out : List Bytes

abbrev pub two_of : ℕ → List Bytes → Bytes → Result Bytes × Line
two_of n out [] = (ok [], record { now = n; left = []; out = out })
two_of n out (x ∷ []) = (ok (x ∷ []), record { now = n; left = []; out = out })
two_of n out (x ∷ y ∷ rest) = (ok (x ∷ y ∷ []), record { now = n; left = rest; out = out })

abbrev pub line_socket : Socket Line
line_socket = record {
  create_connection = λ a n w. (ok tt, w);
  accept = λ w. (ok tt, w);
  recv = λ w. two_of w.now w.out w.left;
  sendall = λ b w. (ok tt, record w { out = w.out ++ b ∷ [] });
  settimeout = λ n w. record w { now = suc w.now };
  gettimeout = λ w. 30;
  is_open = λ w. true;
  close = λ w. w;
  monotonic = λ w. w.now;
  factor = 1;
  randbelow = λ n w. (0, w);
  token_bytes = λ n w. ([], w);
}

line_received :
    (n : ℕ) (out : List Bytes) (left : Bytes)
    → Received line_socket (λ w. w.left) left (two_of n out left)
line_received n out [] = (refl, refl)
line_received n out (x ∷ []) = refl
line_received n out (x ∷ y ∷ rest) = refl

pub line_laws : StreamLaws line_socket (λ w. w.left)
line_laws = record { received = λ w. line_received w.now w.out w.left; kept = λ n w. refl }

two_of_out : (n : ℕ) (out : List Bytes) (left : Bytes) → (two_of n out left).1.out ≡ out
two_of_out n out [] = refl
two_of_out n out (x ∷ []) = refl
two_of_out n out (x ∷ y ∷ rest) = refl

pub line_sends : SendLaws line_socket (λ w. w.out)
line_sends = record {
  added = λ b w w' h. sym (ap (λ r. r.1.out) h);
  received = λ w. two_of_out w.now w.out w.left;
  waited = λ n w. refl;
  drawn = λ n w. refl;
}

-- A frame: the magic, the two lengths, the command and the payload.
abbrev pub frame : Bytes → Message → Bytes
frame magic m = 7 ∷ length m.command ∷ length m.payload ∷ m.command ++ m.payload

abbrev pub parse_frame : Bytes → Parsed
parse_frame (x ∷ c ∷ p ∷ rest) =
    if leb (c + p) (length rest)
    then whole (record { command = take c rest; payload = take p (drop c rest) }) (3 + c + p)
    else incomplete
parse_frame _ = incomplete

append_assoc_lengths :
    (c p rest : Bytes) → leb (length c + length p) (length ((c ++ p) ++ rest)) ≡ true
append_assoc_lengths c p rest =
    fits (length c) (length p) (length rest) (length ((c ++ p) ++ rest))
      (omega (arith, length-append (c ++ p) rest, length-append c p))
  where
    fits : (a b r n : ℕ) → n ≡ a + b + r → leb (a + b) n ≡ true
    fits a b r n h = ground arith

take-length : (xs ys : Bytes) → take (length xs) (xs ++ ys) ≡ xs
take-length [] ys = refl
take-length (x ∷ xs) ys = ap (λ t. x ∷ t) (take-length xs ys)

frame_parsed :
    (m : Message) (rest : Bytes)
    → parse_frame (frame (7 ∷ []) m ++ rest) ≡ whole m (length (frame (7 ∷ []) m))
frame_parsed m rest =
    rw
      (
        append_assoc_lengths m.command m.payload rest,
        append_assoc m.command m.payload rest,
        take-length m.command (m.payload ++ rest),
        drop-length m.command (m.payload ++ rest),
        take-length m.payload rest,
        length-append m.command m.payload,
      )
      (ap (whole m) (omega arith))

frame_short : (b : Bytes) → length b < 1 → parse_frame b ≡ incomplete
frame_short [] h = refl
frame_short (x ∷ b) h = absurd (omega arith)

length-drop : (n : ℕ) (b : Bytes) → n ≤ length b → length (drop n b) + n ≡ length b
length-drop zero b h = omega arith
length-drop (suc n) [] h = absurd (omega arith)
length-drop (suc n) (x ∷ xs) h = omega (arith, length-drop n xs (omega arith))

further : (a n m k : ℕ) → a ≤ n → k ≡ n + m → leb a k ≡ true
further a n m k h e = ground arith

frame_stable :
    (b more : Bytes)
    → (parse_frame b ≡ incomplete)
      ⊎ ((parse_frame (b ++ more) ≡ parse_frame b)
          × ((m : Message) (n : ℕ) → parse_frame b ≡ whole m n → n ≤ length b))
frame_stable [] more = inl refl
frame_stable (x ∷ []) more = inl refl
frame_stable (x ∷ c ∷ []) more = inl refl
frame_stable (x ∷ c ∷ p ∷ rest) more = elim (Bool-cases (leb (c + p) (length rest))) [
  | inr e ↦ inl (rw e refl)
  | inl e ↦
      let inside : c + p ≤ length rest = ground (arith, e) in
      let right : p ≤ length (drop c rest) =
        omega (arith, inside, length-drop c rest (omega (arith, inside))) in
      inr (
        rw
            (
              e,
              further (c + p) (length rest) (length more) (length (rest ++ more)) inside
                  (length-append rest more),
              take-append c rest more (omega (arith, inside)),
              sym (drop-append c rest more (omega (arith, inside))),
              take-append p (drop c rest) more right,
            )
            refl,
        λ m n h. let same : 3 + c + p ≡ n = cc (rw e at h) in omega (arith, same, inside),
      )
]

pub frames : FramingLaws (7 ∷ []) parse_frame frame
frames = record {
  parsed = frame_parsed;
  opens = λ m rest. refl;
  short = frame_short;
  stable = frame_stable;
}

-- the command of a payload
abbrev pub name_of : Payload → Text
name_of (version services nonce) = codes "version"
name_of verack = codes "verack"
name_of wtxid_relay = codes "wtxidrelay"
name_of send_addr_v2 = codes "sendaddrv2"
name_of (ping n) = codes "ping"
name_of (pong n) = codes "pong"
name_of (other c b) = c

abbrev pub lib : P2p (Unit {0})
lib = record {
  parse = parse_frame;
  serialize = frame;
  to_message = λ p magic valid. ok (record { command = name_of p; payload = [] });
  ping_nonce = λ b. ok 5;
  pong_nonce = λ b. ok 0;
  parse_version = λ b. ok (0, 0);
  contents_from_message = λ c b. b;
  message_from_contents = λ b. none;
  order = 2;
  create = λ n. [];
  new_cipher = λ n a b d m. ok tt;
  send_garbage_terminator = λ c. [];
  recv_garbage_terminator = λ c. [];
  encrypt = λ b a i c. (ok b, c);
  decrypt_length = λ b c. (ok 0, c);
  decrypt = λ b a c. (ok (b, false), c);
}

abbrev pub hello : Message
hello = record { command = codes "ab"; payload = 1 ∷ 2 ∷ 3 ∷ [] }

abbrev pub peer_at : Bytes → Session Line (Unit {0})
peer_at b = adopt line_socket (7 ∷ []) 30 true (record { now = 0; left = b; out = [] })
