-- ===== src/Net/Limits.antt =====
-- How many hashes a scrape request can have.
use bttracker.Common.{
  ℕ, ◌+◌, ◌-◌, ◌%◌, ◌^◌, ◌≤◌, ◌≡◌, arith, Option, none, some, length, leb, leb→le, Bool-cases,
  Option-cases, inl, inr,
}
use bttracker.Memory.{Bytes, Endian, slice, memcpy}
use bttracker.ByteOrder.{Target}
use bttracker.Data.{ScrapeRequest}
use bttracker.Net.{read_scrape_request_data}

abbrev pub HasFew : Option ScrapeRequest → Type 0
HasFew none = Unit
HasFew (some r) = r.info_hash_len ≤ 8

-- Eight hashes at most are copied into an array of 160 bytes.
pub read_scrape_request_data-HasFew :
    (t : Target) (e : Endian) (buffer : Bytes) (buflen : ℕ) (array : Bytes)
    → length array ≡ 160
    → HasFew (read_scrape_request_data t e buffer buflen array)
unfolding read_scrape_request_data
read_scrape_request_data-HasFew t e buffer buflen array size =
    let copied = (buflen + 2 ^ 64 - 16) % 2 ^ 64 in
    elim (Bool-cases (leb copied (length array))) [
      | inr beyond ↦ rw (beyond, read_scrape_request_data) tt
      | inl fits ↦ elim (Option-cases (memcpy array 0 (slice 16 copied buffer))) [
        | inl out ↦ rw (fits, read_scrape_request_data) (rw out tt)
        | inr (hashes, copy) ↦
            rw (fits, read_scrape_request_data)
              (rw copy (omega (arith, leb→le copied (length array) fits)))
      ]
    ]
