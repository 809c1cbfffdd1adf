-- ===== src/Announce/Logs.antt =====
-- src/announce.c: the line that an announce logs.
use bttracker.Common.{
  ℕ, zero, suc, ◌+◌, ◌-◌, ◌/◌, ◌^◌, ◌≤◌, ◌<◌, ◌≡◌, refl, arith, ◌&&◌, Bool, true, false, [], ◌∷◌,
  ◌++◌, length, length-append, leb, leb→le, ltb, ltb→lt, both, All, All-append, ◌==◌, if◌then◌else◌,
  Bool-cases, inl, inr,
}
use bttracker.ByteOrder.{Target}
use bttracker.Net.{read_announce_request_data}
use bttracker.Net.Types.{read_announce_request_data-IsAnnounce}
use bttracker.Memory.{Bytes, IsByte, Endian, is_negative32}
use bttracker.Text.{codes, digits, print_int}
use bttracker.Text.Digits.{length-digits}
use bttracker.Data.{
  AnnounceRequest, IsAnnounce, event_none, event_completed, event_started, event_stopped,
}

pub announce_event_str : ℕ → Bytes
announce_event_str event =
    if event == event_none
    then codes "NONE"
    else if event == event_completed
    then codes "COMPLETED"
    else if event == event_started
    then codes "STARTED"
    else if event == event_stopped
    then codes "STOPPED"
    else codes "UNKNOWN"

-- `PRId64` of a 64-bit pattern; twenty digits are enough.
print_int64 : ℕ → Bytes
unfolding digits
print_int64 w = if leb (2 ^ 63) w then 45 ∷ digits 20 (2 ^ 64 - w) else digits 20 w

-- The text that goes to syslog.
pub log_announce_request : AnnounceRequest → Bytes
unfolding announce_event_str print_int64
log_announce_request req =
    codes "Handling announce: ["
    ++ (announce_event_str req.event
        ++ (codes "] D/U/L/W: "
            ++ (print_int64 req.downloaded
                ++ (codes "/"
                    ++ (print_int64 req.uploaded
                        ++ (codes "/"
                            ++ (print_int64 req.left ++ (codes "/" ++ print_int req.num_want))))))))

-- No control character, and no byte beyond ASCII.
abbrev pub IsPrintable : ℕ → Type 0
IsPrintable c = (32 ≤ c) × (c < 127)

-- A text of at most `n` such bytes.
record IsShortText (n : ℕ) (s : Bytes) : Type 0 where
  printable : All IsPrintable s
  short : length s ≤ n

append-IsShortText :
    (m n : ℕ) (s t : Bytes) → IsShortText m s → IsShortText n t → IsShortText (m + n) (s ++ t)
append-IsShortText m n s t h k = record {
  printable = All-append IsPrintable s t h.printable k.printable;
  short = omega (arith, length-append s t, h.short, k.short);
}

are_printable : Bytes → Bool
are_printable [] = true
are_printable (c ∷ s) = (leb 32 c && leb c 126) && are_printable s

are_printable-All : (s : Bytes) → are_printable s ≡ true → All IsPrintable s
unfolding are_printable
are_printable-All [] e = tt
are_printable-All (c ∷ s) e =
    let (first, rest) = both (leb 32 c && leb c 126) (are_printable s) e in
    let (low, high) = both (leb 32 c) (leb c 126) first in
    ((leb→le 32 c low, omega (arith, leb→le c 126 high)), are_printable-All s rest)

-- A text of the source is checked by a test.
literal-IsShortText : (n : ℕ) (s : Bytes) → are_printable s ≡ true → length s ≤ n → IsShortText n s
literal-IsShortText n s e h = record { printable = are_printable-All s e; short = h }

digits-IsPrintable : (fuel n : ℕ) → All IsPrintable (digits fuel n)
unfolding digits
digits-IsPrintable zero n = tt
digits-IsPrintable (suc fuel) n = elim (Bool-cases (ltb n 10)) [
  | inl one ↦ rw one ((omega (arith, ltb→lt n 10 one), omega (arith, ltb→lt n 10 one)), tt)
  | inr more ↦ rw more (
      All-append IsPrintable (digits fuel (n / 10)) _ (digits-IsPrintable fuel (n / 10))
        ((omega arith, omega arith), tt))
]

if-IsShortText :
    (n : ℕ) (b : Bool) (s t : Bytes)
    → IsShortText n s
    → IsShortText n t
    → IsShortText n (if b then s else t)
if-IsShortText n true s t h k = h
if-IsShortText n false s t h k = k

event-IsShortText : (event : ℕ) → IsShortText 9 (announce_event_str event)
unfolding announce_event_str are_printable
event-IsShortText event =
    if-IsShortText 9 _ _ _ (literal-IsShortText 9 (codes "NONE") refl (omega arith)) (
      if-IsShortText 9 _ _ _ (literal-IsShortText 9 (codes "COMPLETED") refl (omega arith)) (
        if-IsShortText 9 _ _ _ (literal-IsShortText 9 (codes "STARTED") refl (omega arith)) (
          if-IsShortText 9 _ _ _ (literal-IsShortText 9 (codes "STOPPED") refl (omega arith))
            (literal-IsShortText 9 (codes "UNKNOWN") refl (omega arith)))))

-- A sign and at most `k + 1` digits, or at most so many digits.
signed-IsShortText :
    (fuel k : ℕ) (b : Bool) (v w : ℕ)
    → (b ≡ true → v < 10 ^ suc k)
    → (b ≡ false → w < 10 ^ suc k)
    → IsShortText (k + 2) (if b then 45 ∷ digits fuel v else digits fuel w)
signed-IsShortText fuel k true v w h h' = record {
  printable = ((omega arith, omega arith), digits-IsPrintable fuel v);
  short = omega (arith, length-digits fuel k v (h refl));
}
signed-IsShortText fuel k false v w h h' = record {
  printable = digits-IsPrintable fuel w;
  short = omega (arith, length-digits fuel k w (h' refl));
}

int64-IsShortText : (w : ℕ) → w < 2 ^ 64 → IsShortText 20 (print_int64 w)
unfolding print_int64
int64-IsShortText w h =
    signed-IsShortText 20 18 (leb (2 ^ 63) w) (2 ^ 64 - w) w
      (λ e. omega (arith, leb→le (2 ^ 63) w e)) (λ e. ground arith)

int-IsShortText : (w : ℕ) → w < 2 ^ 32 → IsShortText 11 (print_int w)
unfolding print_int is_negative32
int-IsShortText w h =
    signed-IsShortText 10 9 (leb (2 ^ 31) w) (2 ^ 32 - w) w
      (λ e. omega (arith, leb→le (2 ^ 31) w e)) (λ e. ground arith)

log_announce_request-IsShortText :
    (req : AnnounceRequest) → IsAnnounce req → IsShortText 114 (log_announce_request req)
unfolding log_announce_request are_printable
log_announce_request-IsShortText req h =
    let slash = literal-IsShortText 1 (codes "/") refl (omega arith) in
    append-IsShortText 20 94 _ _
      (literal-IsShortText 20 (codes "Handling announce: [") refl (omega arith))
      (append-IsShortText 9 85 _ _ (event-IsShortText req.event) (
        append-IsShortText 11 74 _ _
          (literal-IsShortText 11 (codes "] D/U/L/W: ") refl (omega arith))
          (append-IsShortText 20 54 _ _ (int64-IsShortText req.downloaded h.downloaded) (
            append-IsShortText 1 53 _ _ slash (
              append-IsShortText 20 33 _ _ (int64-IsShortText req.uploaded h.uploaded) (
                append-IsShortText 1 32 _ _ slash (
                  append-IsShortText 20 12 _ _ (int64-IsShortText req.left h.left) (
                    append-IsShortText 1 11 _ _ slash
                      (int-IsShortText req.num_want h.num_want)))))))))

-- Whatever bytes a buffer of at least 98 holds: the line that is logged for the announce request in
-- it has 114 characters at most, each of them printable ASCII, so a client can neither end the line
-- nor forge another.
pub log_announce_request-Printable :
    (t : Target) (e : Endian) (buffer : Bytes)
    → All IsByte buffer
    → 98 ≤ length buffer
    → All IsPrintable (log_announce_request (read_announce_request_data t e buffer))
      × (length (log_announce_request (read_announce_request_data t e buffer)) ≤ 114)
log_announce_request-Printable t e buffer bytes h =
    let text =
      log_announce_request-IsShortText (read_announce_request_data t e buffer)
        (read_announce_request_data-IsAnnounce e buffer bytes t h) in
    (text.printable, text.short)
