-- ===== src/Server/Leftovers.antt =====
-- What a job reads behind the end of its datagram.
use bttracker.Common.{
  ℕ, zero, suc, ◌+◌, ◌-◌, ◌≤◌, ◌≡◌, refl, sym, ap, ◌∙◌, arith, [], ◌∷◌, ◌++◌, length, take, drop,
}
use bttracker.Memory.{Bytes, Endian, slice, load, hton}
use bttracker.Memory.Blocks.{slice-skip}
use bttracker.ByteOrder.{Target, ntohll}
use bttracker.Data.{recv_buflen}
use bttracker.Net.{read_announce_request_data}
use bttracker.Server.{Datagram, arrived, clone}

drop_nil : (k : ℕ) → ◌≡◌ {A = Bytes} (drop k []) []
drop_nil zero = refl
drop_nil (suc k) = refl

drop-drop : (n k : ℕ) (bs : Bytes) → drop k (drop n bs) ≡ drop (n + k) bs
drop-drop zero k bs = let e : 0 + k ≡ k = omega arith in rw e
drop-drop (suc n) k [] = drop_nil k ∙ sym (drop_nil (suc n + k))
drop-drop (suc n) k (b ∷ bs) =
    let e : suc n + k ≡ suc (n + k) = omega arith in rw e (drop-drop n k bs)

take_all : (n : ℕ) (bs : Bytes) → length bs ≤ n → take n bs ≡ bs
take_all zero [] h = refl
take_all zero (b ∷ bs) h = absurd (omega arith)
take_all (suc n) [] h = refl
take_all (suc n) (b ∷ bs) h = ap (λ t. b ∷ t) (take_all n bs (omega arith))

-- A datagram that fits the buffer is not cut.
pub clone_lem :
    (buff : Bytes) (d : Datagram)
    → length d.payload ≤ recv_buflen
    → clone buff d
      ≡ record { buff = d.payload ++ drop (length d.payload) buff; buflen = length d.payload }
unfolding clone arrived
clone_lem buff d h = rw (take_all recv_buflen d.payload h)

slice_behind :
    (bs buff : Bytes) (off n : ℕ)
    → length bs ≤ off
    → slice off n (bs ++ drop (length bs) buff) ≡ slice off n buff
unfolding slice
slice_behind bs buff off n h =
    let k = off - length bs in
    let e : length bs + k ≡ off = omega arith in
    ap (λ o. slice o n (bs ++ drop (length bs) buff)) (sym e)
    ∙ slice-skip bs (drop (length bs) buff) k n
    ∙ ap (take n) (drop-drop (length bs) k buff)
    ∙ ap (λ o. slice o n buff) e

-- Behind the datagram the clone has what was in the buffer.
slice-clone :
    (buff : Bytes) (d : Datagram) (off n : ℕ)
    → length d.payload ≤ recv_buflen
    → length d.payload ≤ off
    → slice off n (clone buff d).buff ≡ slice off n buff
unfolding clone arrived
slice-clone buff d off n small h =
    rw (take_all recv_buflen d.payload small) (slice_behind d.payload buff off n h)

-- Of an announce in a datagram of no more than 36 bytes, the peer's identifier, its counts of
-- bytes downloaded, left and uploaded, its event, the number of peers it wants and its port are what the buffer held before.
pub read_announce_request_data-clone :
    (t : Target) (e : Endian) (buff : Bytes) (d : Datagram)
    → length d.payload ≤ 36
    → let packet = read_announce_request_data t e (clone buff d).buff in
      let old = read_announce_request_data t e buff in
      (packet.peer_id ≡ old.peer_id)
      × (packet.downloaded ≡ old.downloaded)
      × (packet.left ≡ old.left)
      × (packet.uploaded ≡ old.uploaded)
      × (packet.event ≡ old.event)
      × (packet.num_want ≡ old.num_want)
      × (packet.port ≡ old.port)
unfolding read_announce_request_data
read_announce_request_data-clone t e buff d h = (
  slice-clone buff d 36 20 (omega arith) h,
  ap (λ b. ntohll t e (load e b)) (slice-clone buff d 56 8 (omega arith) (omega arith)),
  ap (λ b. ntohll t e (load e b)) (slice-clone buff d 64 8 (omega arith) (omega arith)),
  ap (λ b. ntohll t e (load e b)) (slice-clone buff d 72 8 (omega arith) (omega arith)),
  ap (λ b. hton e 4 (load e b)) (slice-clone buff d 80 4 (omega arith) (omega arith)),
  ap (λ b. hton e 4 (load e b)) (slice-clone buff d 92 4 (omega arith) (omega arith)),
  ap (λ b. hton e 2 (load e b)) (slice-clone buff d 96 2 (omega arith) (omega arith)),
)
