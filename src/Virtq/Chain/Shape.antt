-- ===== src/Virtq/Chain/Shape.antt =====
-- The buffers that a walk of virtio/virt_queue.c collects, one at a time.
use mathlib.Core.Path.{subst}
use yc_libvhost_server.Base.{
  leb, ◌==◌, if◌then◌else◌, Bool-cases, Option-cases, length, get_elem?, get_or, set, All,
  length-set, get_or-set_self, get_or-set_ne, add16, ok, err, ℕ, ◌+◌, ◌^◌, ◌≤◌, ◌<◌, ◌≡◌, ◌∙◌, ◌≢◌,
  ◌⊎◌, inl, inr, Bool, true, false, none, some, arith,
}
use yc_libvhost_server.Memmap.Region.{Region, Memmap}
use yc_libvhost_server.Memmap.Translate.{gpa_range_to_ptr, IsMapped}
use yc_libvhost_server.Memmap.Translate.Sound.{gpa_range_to_ptr-Covers}
use yc_libvhost_server.Virtq.Chain.{add_buffer, Walk, map_buffer, add_writable, add_readable}
use yc_libvhost_server.Virtq.Types.{Desc, Buffer, Scratch}

abbrev pub no_buffer : Buffer
no_buffer = record { base = 0; len = 0; write_only = false }

-- The buffer lies inside one region of the map.
abbrev pub InMap : Memmap → Buffer → Type 0
InMap mm b =
    (i : ℕ) × (reg : Region) × (get_elem? mm.regions i ≡ some reg)
    × (reg.ptr ≤ b.base)
    × (b.base + b.len ≤ reg.ptr + reg.size)

-- The buffers collected so far: those to read before those to write, each inside a region, and
-- never more than fit.
pub record IsScratch (mm : Memmap) (max_chain_len : ℕ) (sc : Scratch) : Type 0 where
  pub fits : sc.niov_out + sc.niov_in ≤ max_chain_len
  pub room : length sc.buffers ≡ max_chain_len
  pub readable : (i : ℕ) → i < sc.niov_out → (get_or sc.buffers i no_buffer).write_only ≡ false
  pub writable :
      (i : ℕ)
      → sc.niov_out ≤ i
      → i < sc.niov_out + sc.niov_in
      → (get_or sc.buffers i no_buffer).write_only ≡ true
  pub mapped : (i : ℕ) → i < sc.niov_out + sc.niov_in → InMap mm (get_or sc.buffers i no_buffer)

-- Returned, and if it succeeded then with what `P` says.
abbrev pub Returns : {A : Type 0} → (A → Type 0) → Walk A → Type 0
Returns P none = ⊥
Returns P (some (err e)) = Unit {0}
Returns P (some (ok a)) = P a

pub Returns-mono :
    {A : Type 0} {P Q : A → Type 0}
    → ((a : A) → P a → Q a)
    → (w : Walk A) → Returns P w
    → Returns Q w
Returns-mono h none r = r
Returns-mono h (some (err e)) r = tt
Returns-mono h (some (ok a)) r = h a r

-- A word for the descriptors that a map can translate: `addr` is 64 bits.
abbrev pub IsWordDesc : Desc → Type 0
IsWordDesc d = d.addr < 2 ^ 64

-- Where the next buffer goes, and which counter it counts in.
abbrev pub Extends : Scratch → Buffer → ℕ → ℕ → Type 0
Extends sc b out write =
    ((b.write_only ≡ false) × (sc.niov_in ≡ 0) × (out ≡ sc.niov_out + 1) × (write ≡ sc.niov_in))
    ⊎ ((b.write_only ≡ true) × (out ≡ sc.niov_out) × (write ≡ sc.niov_in + 1))

abbrev extend : Scratch → Buffer → ℕ → ℕ → Scratch
extend sc b out write = record {
  niov_out = out;
  niov_in = write;
  buffers = set sc.buffers (sc.niov_out + sc.niov_in) b;
}

module _ (mm : Memmap) (max_chain_len : ℕ) (sc : Scratch) (v : IsScratch mm max_chain_len sc) where
  extend-IsScratch :
      (b : Buffer) (out write : ℕ)
      → InMap mm b
      → sc.niov_out + sc.niov_in < max_chain_len
      → Extends sc b out write
      → IsScratch mm max_chain_len (extend sc b out write)
  extend-IsScratch b out write at lt ext = record {
    fits = ground arith;
    room = length-set sc.buffers n b ∙ v.room;
    readable = λ i h. ground (arith, here, there i, v.readable i);
    writable = λ i lo hi. ground (arith, here, there i, v.writable i);
    mapped = λ i h. elim (Bool-cases (i == n)) [
      | inl new ↦
          let e : get_or (set sc.buffers n b) i no_buffer ≡ b = ground (arith, here) in rw e at
      | inr old ↦
          let e : get_or (set sc.buffers n b) i no_buffer ≡ get_or sc.buffers i no_buffer =
            ground (arith, there i) in
          rw e (v.mapped i (ground arith))
    ];
  }
    where
      n : ℕ
      n = sc.niov_out + sc.niov_in

      here : get_or (set sc.buffers n b) n no_buffer ≡ b
      here = get_or-set_self sc.buffers n b no_buffer (rw v.room lt)

      there :
          (i : ℕ) → n ≢ i → get_or (set sc.buffers n b) i no_buffer ≡ get_or sc.buffers i no_buffer
      there i ne = get_or-set_ne sc.buffers n i b no_buffer ne

-- What one more buffer leaves: a well-formed area with one buffer more.
abbrev pub OneMore : Memmap → ℕ → Scratch → Scratch → Type 0
OneMore mm max_chain_len sc sc' =
    IsScratch mm max_chain_len sc' × (sc'.niov_out + sc'.niov_in ≡ sc.niov_out + sc.niov_in + 1)

module _ (mm : Memmap) (max_chain_len : ℕ) (small : max_chain_len < 2 ^ 16) where
  add_writable-Returns :
      (sc : Scratch) (niov addr len : ℕ)
      → IsScratch mm max_chain_len sc
      → niov ≡ sc.niov_out + sc.niov_in
      → niov < max_chain_len
      → InMap mm (record { base = addr; len = len; write_only = true })
      → Returns (OneMore mm max_chain_len sc) (some (add_writable sc niov addr len))
  unfolding add_writable
  add_writable-Returns sc niov addr len v e lt at = rw e (
    extend-IsScratch mm max_chain_len sc v (record { base = addr; len = len; write_only = true })
        sc.niov_out (add16 sc.niov_in 1) at (omega arith) (ground arith),
    omega arith,
  )

  add_readable-Returns :
      (sc : Scratch) (niov addr len : ℕ)
      → IsScratch mm max_chain_len sc
      → niov ≡ sc.niov_out + sc.niov_in
      → niov < max_chain_len
      → InMap mm (record { base = addr; len = len; write_only = false })
      → Returns (OneMore mm max_chain_len sc) (some (add_readable sc niov addr len))
  unfolding add_readable
  add_readable-Returns sc niov addr len v e lt at = elim (Bool-cases (sc.niov_in == 0)) [
    | inr behind ↦ rw behind tt
    | inl first ↦ rw first (
        rw e (
          extend-IsScratch mm max_chain_len sc v
              (record { base = addr; len = len; write_only = false }) (add16 sc.niov_out 1)
              sc.niov_in at (omega arith) (ground arith),
          omega arith,
        ))
  ]

  add_buffer-Returns :
      (sc : Scratch) (addr len : ℕ) (write : Bool)
      → IsScratch mm max_chain_len sc
      → InMap mm (record { base = addr; len = len; write_only = write })
      → Returns (OneMore mm max_chain_len sc) (some (add_buffer max_chain_len sc addr len write))
  unfolding add_buffer
  add_buffer-Returns sc addr len write v at =
      elim (Bool-cases (leb max_chain_len (add16 sc.niov_out sc.niov_in))) [
        | inl full ↦ rw full tt
        | inr room ↦ rw room (branch (ground arith) write at)
      ]
    where
      niov : ℕ
      niov = add16 sc.niov_out sc.niov_in

      branch :
          niov < max_chain_len
          → (w : Bool) → InMap mm (record { base = addr; len = len; write_only = w })
          → Returns
              (OneMore mm max_chain_len sc)
              (some (if w then add_writable sc niov addr len else add_readable sc niov addr len))
      branch lt true at = add_writable-Returns sc niov addr len v (omega (arith, v.fits)) lt at
      branch lt false at = add_readable-Returns sc niov addr len v (omega (arith, v.fits)) lt at

  module _ (read : ℕ → Desc) (words : (a : ℕ) → IsWordDesc (read a))
      (sound : All IsMapped mm.regions) where
    map_buffer-Returns :
        (sc : Scratch) (gpa len : ℕ) (write : Bool)
        → IsScratch mm max_chain_len sc
        → gpa < 2 ^ 64
        → Returns
            (OneMore mm max_chain_len sc)
            (some (map_buffer mm max_chain_len sc gpa len write))
    unfolding map_buffer
    map_buffer-Returns sc gpa len write v w = elim (Option-cases (gpa_range_to_ptr mm gpa len)) [
      | inl out ↦ rw (out, map_buffer) tt
      | inr (ptr, found) ↦
          let (i, reg, at, lo, hi, p) = gpa_range_to_ptr-Covers mm gpa len ptr w sound found in
          rw (found, map_buffer)
            (add_buffer-Returns sc ptr len write v (i, reg, at, omega arith, omega arith))
    ]

    pub map_buffer_ok :
        (sc sc' : Scratch) (gpa len : ℕ) (write : Bool)
        → IsScratch mm max_chain_len sc
        → gpa < 2 ^ 64
        → map_buffer mm max_chain_len sc gpa len write ≡ ok sc'
        → OneMore mm max_chain_len sc sc'
    map_buffer_ok sc sc' gpa len write v w e =
        subst (λ r. Returns (OneMore mm max_chain_len sc) (some r)) e
          (map_buffer-Returns sc gpa len write v w)
