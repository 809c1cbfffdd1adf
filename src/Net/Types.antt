-- ===== src/Net/Types.antt =====
-- The widths of the fields that are read from a buffer.
use mathlib.Core.Path.{subst}
use bttracker.Common.{ℕ, ◌+◌, ◌^◌, ◌<◌, ◌≤◌, arith, length, All}
use bttracker.Memory.{Bytes, IsByte, Endian, hton, load, slice, from_be}
use bttracker.Memory.Blocks.{slice-IsByte, length-slice}
use bttracker.Memory.Order.{bswap-lt, from_be-lt, hton-load}
use bttracker.ByteOrder.{Target, glibc, apple, ntohll}
use bttracker.Data.{IsRequest, IsAnnounce}
use bttracker.Net.{read_request_data, read_announce_request_data}

module _ (e : Endian) (buffer : Bytes) (bytes : All IsByte buffer) where
  field-lt :
      (off n : ℕ) → off + n ≤ length buffer → hton e n (load e (slice off n buffer)) < 256 ^ n
  field-lt off n h =
      let size = length-slice off n buffer h in
      let held = slice-IsByte off n buffer bytes in
      rw (hton-load e n (slice off n buffer) size held) (
        subst (λ k. from_be (slice off n buffer) < 256 ^ k) size
          (from_be-lt (slice off n buffer) held))

  wide_field-lt :
      (t : Target) (off : ℕ)
      → off + 8 ≤ length buffer
      → ntohll t e (load e (slice off 8 buffer)) < 2 ^ 64
  unfolding ntohll
  wide_field-lt apple off h = field-lt off 8 h
  wide_field-lt glibc off h = bswap-lt 8 (load e (slice off 8 buffer))

  -- Whatever bytes a buffer of at least 98 holds, and whatever the byte order and the target: the
  -- announce request that is read from it has its fields in the widths of the structure.
  pub read_announce_request_data-IsAnnounce :
      (t : Target) → 98 ≤ length buffer → IsAnnounce (read_announce_request_data t e buffer)
  unfolding read_announce_request_data
  read_announce_request_data-IsAnnounce t h = record {
    connection_id = wide_field-lt t 0 (omega arith);
    action = field-lt 8 4 (omega arith);
    transaction_id = field-lt 12 4 (omega arith);
    ipv4_addr = field-lt 84 4 (omega arith);
    port = field-lt 96 2 (omega arith);
    info_hash = length-slice 16 20 buffer (omega arith);
    peer_id = length-slice 36 20 buffer (omega arith);
    downloaded = wide_field-lt t 56 (omega arith);
    left = wide_field-lt t 64 (omega arith);
    uploaded = wide_field-lt t 72 (omega arith);
    key = field-lt 88 4 (omega arith);
    num_want = field-lt 92 4 (omega arith);
    event = field-lt 80 4 (omega arith);
  }

  -- The same for the header of any request, in a buffer of at least 16 bytes.
  pub read_request_data-IsRequest :
      (t : Target) → 16 ≤ length buffer → IsRequest (read_request_data t e buffer)
  unfolding read_request_data
  read_request_data-IsRequest t h = record {
    connection_id = wide_field-lt t 0 (omega arith);
    action = field-lt 8 4 (omega arith);
    transaction_id = field-lt 12 4 (omega arith);
  }
