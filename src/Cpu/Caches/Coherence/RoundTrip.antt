-- ===== src/Cpu/Caches/Coherence/RoundTrip.antt =====
-- What a store puts into memory is what a load at the same place gets, on any processor.
use xremu.Base.{
  ℕ, zero, suc, ◌+◌, ◌*◌, ◌/◌, ◌%◌, ◌^◌, ◌≡◌, ◌<◌, ◌≤◌, ◌∙◌, sym, ap, subst, arith, Bool, true,
  false, ◌-◌, if◌then◌else◌, Option, none, some, update_self,
}
use xremu.Cpu.Dcache.{Line}
use xremu.Cpu.Caches.{LineBus, Caches}
use xremu.Cpu.Caches.Access.{
  load_access, write_bytes, store_access, aborted, sc_failed, Outcome, done, bus_failed, read_bytes,
  tag_of, offset_of, load_access,
}
use xremu.Cpu.Caches.Coherence.{IsLive, IsCoherent}
use xremu.Cpu.Caches.Coherence.Merge.{stored_in}
use xremu.Cpu.Caches.Coherence.Store.{IsStored, written, refused, unanswered}
use xremu.Cpu.Caches.Coherence.Load.{load_access-IsCoherent}
use xremu.Cpu.Caches.Coherence.Restart.{store_access-IsStored}
use native.Mathlib.Nat.{pow-suc, div-add-mod', div-div-eq-div-mul}

mod-byte : (q x : ℕ) → x % (2 ^ 8 * q) ≡ x % 2 ^ 8 + 2 ^ 8 * (x / 2 ^ 8 % q)
mod-byte q x = omega (
  arith,
  div-add-mod' x (2 ^ 8 * q),
  div-add-mod' (x / 2 ^ 8) q,
  div-div-eq-div-mul x (2 ^ 8) q,
  ap (λ (t : ℕ). t * q) (div-div-eq-div-mul x (2 ^ 8) q),
)

byte-pow : (k : ℕ) → 2 ^ (8 * (k + 1)) ≡ 2 ^ 8 * 2 ^ (8 * k)
byte-pow k = omega (
  arith,
  ap (λ (e : ℕ). 2 ^ e) e,
  pow-suc 2 (8 * k),
  pow-suc 2 (suc (8 * k)),
  pow-suc 2 (suc (suc (8 * k))),
  pow-suc 2 (suc (suc (suc (8 * k)))),
  pow-suc 2 (suc (suc (suc (suc (8 * k))))),
  pow-suc 2 (suc (suc (suc (suc (suc (8 * k)))))),
  pow-suc 2 (suc (suc (suc (suc (suc (suc (8 * k))))))),
  pow-suc 2 (suc (suc (suc (suc (suc (suc (suc (8 * k)))))))),
)
  where
    e : 8 * (k + 1) ≡ suc (suc (suc (suc (suc (suc (suc (suc (8 * k))))))))
    e = omega arith

read_bytes_digits :
    (n offset value : ℕ) (l : Line)
    → ((k : ℕ) → k < n → l (offset + k) ≡ value / 2 ^ (8 * k) % 2 ^ 8)
    → read_bytes l offset n ≡ value % 2 ^ (8 * n)
unfolding read_bytes
read_bytes_digits zero offset value l digits = omega arith
read_bytes_digits (suc n) offset value l digits =
    let rest = read_bytes_digits n (offset + 1) (value / 2 ^ 8) l (λ k lt.
      ap l (above offset k)
      ∙ digits (k + 1) (omega arith)
      ∙ ap (λ (t : ℕ). t % 2 ^ 8)
          (ap (λ (q : ℕ). value / q) (byte-pow k)
            ∙ sym (div-div-eq-div-mul value (2 ^ 8) (2 ^ (8 * k))))) in
    let first = digits 0 (omega arith) in
    ap (λ (t : ℕ). l offset + 2 ^ 8 * t) rest
    ∙ ap (λ (t : ℕ). t + 2 ^ 8 * (value / 2 ^ 8 % 2 ^ (8 * n)))
        (ap l (sym (above_zero offset)) ∙ first ∙ omega arith)
    ∙ sym (mod-byte (2 ^ (8 * n)) value)
    ∙ ap (λ (t : ℕ). value % t) (sym (byte-pow n))
    ∙ ap (λ (t : ℕ). value % 2 ^ (8 * t)) (next n)
  where
    above : (offset k : ℕ) → offset + 1 + k ≡ offset + (k + 1)
    above offset k = omega arith

    above_zero : (offset : ℕ) → offset + 0 ≡ offset
    above_zero offset = omega arith

    next : (n : ℕ) → n + 1 ≡ suc n
    next n = omega arith

pub read_bytes-write_bytes :
    (l : Line) (offset n value : ℕ)
    → read_bytes (write_bytes l offset n value) offset n ≡ value % 2 ^ (8 * n)
read_bytes-write_bytes l offset n value =
    read_bytes_digits n offset value (write_bytes l offset n value)
      (λ k lt. ground (arith, ap (λ (t : ℕ). value / 2 ^ (8 * t) % 2 ^ 8) (there k)))
  where
    there : (k : ℕ) → offset + k - offset ≡ k
    there k = omega arith

module _ {M : Type 0} (bus : LineBus M) (mem : ℕ → Line) (present : ℕ → Bool) where
  abbrev or_else : Outcome × Caches M → Option (Outcome × Caches M) → Outcome × Caches M
  or_else r none = r
  or_else r (some s) = s

  abbrev is_done : Outcome → Bool
  is_done (done x) = true
  is_done sc_failed = false
  is_done bus_failed = false
  is_done aborted = false

  after_store :
      {e : Caches M} (q address length value : ℕ) (sc : Bool) (r : Outcome × Caches M)
      → IsStored bus mem present address length value sc r
      → r ≡ (done 0, e)
      → IsLive present q
      → offset_of address + length ≤ 16
      → (load_access bus present e q address length).0 ≡ done (value % 2 ^ (8 * length))
  after_store {e} q address length value sc _ (written f answers h) same live inside =
      subst
        (λ (x : Caches M).
          (load_access bus present x q address length).0 ≡ done (value % 2 ^ (8 * length)))
        (ap (λ (r : Outcome × Caches M). r.1) same)
        ((load_access-IsCoherent bus after present q address length h live inside).0
          ∙ ap
              (λ (b : Bool).
                if b
                then done (read_bytes (after (tag_of address)) (offset_of address) length)
                else bus_failed)
              answers
          ∙ ap (λ (l : Line). done (read_bytes l (offset_of address) length))
              (update_self mem (tag_of address)
                (write_bytes (mem (tag_of address)) (offset_of address) length value))
          ∙ ap done
              (read_bytes-write_bytes (mem (tag_of address)) (offset_of address) length value))
    where
      after : ℕ → Line
      after = stored_in mem (tag_of address) (offset_of address) length value
  after_store {e} q address length value sc _ (refused f asked h) same live inside =
      absurd (ground (arith, ap (λ (r : Outcome × Caches M). is_done r.0) same))
  after_store {e} q address length value sc _ (unanswered f silent h) same live inside =
      absurd (ground (arith, ap (λ (r : Outcome × Caches M). is_done r.0) same))

  -- When a store of some bytes by one processor is done, a load of the same bytes by any processor,
  -- the same or another, reads the stored value's low bytes, from every coherent state, when both
  -- processors exist and the access does not cross the end of its line.
  pub load_access-store_access :
      {c e : Caches M} (p q address length value : ℕ) (sc : Bool)
      → IsCoherent bus mem present c
      → IsLive present p
      → IsLive present q
      → offset_of address + length ≤ 16
      → store_access bus present 2 c p address length value sc ≡ some (done 0, e)
      → (load_access bus present e q address length).0 ≡ done (value % 2 ^ (8 * length))
  load_access-store_access {c} {e} p q address length value sc h live live' inside stored_so =
      let (r, found, s) = store_access-IsStored bus mem present p address length value sc h live in
      after_store q address length value sc r s (ap (or_else r) (sym found ∙ stored_so)) live'
        inside
