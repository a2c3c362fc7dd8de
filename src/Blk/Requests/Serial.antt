-- ===== src/Blk/Requests/Serial.antt =====
-- The answer to a request for the serial number: handle_getid of virtio/virtio_blk.c.
use yc_libvhost_server.Base.{
  ltb, leb, ◌==◌, if◌then◌else◌, Bool-cases, length, get_or, ℕ, zero, suc, ◌+◌, ◌-◌, ◌≡◌, refl, ap,
  ◌∙◌, ◌≢◌, ◌⊎◌, inl, inr, ◌&&◌, List, [], ◌∷◌, arith,
}
use yc_libvhost_server.Blk.Device.{Dev}
use yc_libvhost_server.Blk.Requests.{
  Memory, write_byte, s_ok, s_ioerr, null_buffer, strncpy, serial_of, handle_getid,
}
use yc_libvhost_server.Virtq.Types.{Buffer, Iov}

get_or-suc : (c : ℕ) (src : List ℕ) (i j : ℕ) → i ≡ suc j → get_or (c ∷ src) i 0 ≡ get_or src j 0
get_or-suc c src i j e = ap (λ k. get_or (c ∷ src) k 0) e

get_or-zero : (c : ℕ) (src : List ℕ) (i : ℕ) → i ≡ 0 → get_or (c ∷ src) i 0 ≡ c
get_or-zero c src i e = ap (λ k. get_or (c ∷ src) k 0) e

-- A byte of memory after copying the string `src` into a buffer of `n` bytes at `dst`.
abbrev pub copied : ℕ → List ℕ → ℕ → Memory → ℕ → ℕ
copied dst src n memory addr =
    if leb dst addr && ltb addr (dst + n) then get_or src (addr - dst) 0 else memory addr

strncpy_lem :
    (dst : ℕ) (src : List ℕ) (n : ℕ) (memory : Memory) (addr : ℕ)
    → strncpy dst src n memory addr ≡ copied dst src n memory addr
unfolding strncpy
strncpy_lem dst src zero memory addr = ground arith
strncpy_lem dst [] (suc n) memory addr =
    ground (arith, strncpy_lem (suc dst) [] n (write_byte dst 0 memory) addr)
strncpy_lem dst (c ∷ src) (suc n) memory addr = ground (
  arith,
  strncpy_lem (suc dst) src n (write_byte dst c memory) addr,
  get_or-suc c src (addr - dst) (addr - suc dst),
  get_or-zero c src (addr - dst),
)

-- handle_getid succeeds exactly if there are two writable buffers, the first of 20 bytes. Then
-- these bytes are the serial, cut off or filled up with zeroes, and nothing else is written;
-- otherwise nothing is written at all.
handle_getid_lem :
    (dev : Dev) (iov : Iov) (memory : Memory)
    → let id_buf = get_or iov.iov_in 0 null_buffer in
      let answer = handle_getid dev iov memory in
      ((length iov.iov_in ≡ 2)
        × (id_buf.len ≡ 20)
        × (answer.0 ≡ s_ok)
        × ((addr : ℕ) → answer.1 addr ≡ copied id_buf.base (serial_of dev) 20 memory addr))
      ⊎ (((length iov.iov_in ≢ 2) ⊎ (id_buf.len ≢ 20))
          × (answer.0 ≡ s_ioerr)
          × ((addr : ℕ) → answer.1 addr ≡ memory addr))
unfolding handle_getid
handle_getid_lem dev iov memory = elim (Bool-cases (length iov.iov_in == 2)) [
  | inl two ↦ elim (Bool-cases (id_buf.len == 20)) [
    | inl full ↦
        rw (two, full)
          (inl (
            ground arith,
            ground arith,
            refl,
            λ addr.
                strncpy_lem id_buf.base (serial_of dev) id_buf.len memory addr
                ∙ ap (λ n. copied id_buf.base (serial_of dev) n memory addr) (ground arith),
          ))
    | inr odd ↦ rw (two, odd) (inr (inr (λ e. ground arith), refl, λ addr. refl))
  ]
  | inr other ↦ rw (other) (inr (inl (λ e. ground arith), refl, λ addr. refl))
]
  where
    id_buf : Buffer
    id_buf = get_or iov.iov_in 0 null_buffer
