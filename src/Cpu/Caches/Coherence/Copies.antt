-- ===== src/Cpu/Caches/Coherence/Copies.antt =====
-- What coherence says of the copies of a line, and the caches as they start.
use xremu.Base.{
  subst, List, Option, none, some, ℕ, ◌≡◌, ◌≢◌, ◌<◌, ◌≤◌, ◌∙◌, sym, ap, refl, arith, Bool,
}
use xremu.Cpu.Dcache.{
  Line, line_count, line_invalid, wb_index_invalid, wb_depth, cache_index_invalid,
}
use xremu.Cpu.Caches.Access.{Outcome}
use xremu.Cpu.Caches.Coherence.Serial.{Request, AreRequests, serve_all, serve_all-AreServed}
use xremu.Cpu.Caches.{LineBus, Caches, sc_index}
use xremu.Cpu.Caches.Coherence.{IsLive, IsHeld, stored, IsCoherent}

module _ {M : Type 0} (bus : LineBus M) (mem : ℕ → Line) (present : ℕ → Bool) where
  -- In coherent caches, valid lines with the same tag in two processors are both shared and hold
  -- the same 16 bytes.
  copies-IsCoherent :
      {c : Caches M} (p q i j : ℕ)
      → IsCoherent bus mem present c
      → IsLive present p
      → IsLive present q
      → p ≢ q
      → i < line_count
      → j < line_count
      → (c.dcaches p).flags i ≢ 0
      → (c.dcaches q).flags j ≢ 0
      → (c.dcaches p).tags i ≡ (c.dcaches q).tags j
      → ((c.dcaches p).flags i ≡ 1)
        × ((c.dcaches q).flags j ≡ 1)
        × ((o : ℕ) → o < 16 → (c.dcaches p).lines i o ≡ (c.dcaches q).lines j o)
  copies-IsCoherent {c} p q i j h live live' ne small small' valid valid' same = (
    ground (arith, not_two, not_three, valid),
    ground (arith, not_two, not_three, valid, together),
    λ o lt. one.contents o lt ∙ ap (λ (t : ℕ). mem t o) same ∙ sym (other.contents o lt),
  )
    where
      one :
          IsHeld bus mem c.scache p i
            ((c.dcaches p).tags i)
            ((c.dcaches p).flags i)
            ((c.dcaches p).lines i)
      one = (h.each p live).held i small valid

      other :
          IsHeld bus mem c.scache q j
            ((c.dcaches q).tags j)
            ((c.dcaches q).flags j)
            ((c.dcaches q).lines j)
      other = (h.each q live').held j small' valid'

      together : (c.dcaches p).flags i ≡ (c.dcaches q).flags j
      together = sym one.state ∙ ap (λ (t : ℕ). c.scache.flags (sc_index t)) same ∙ other.state

      not_two : (c.dcaches p).flags i ≢ 2
      not_two two = ne (
          sym (one.owned two)
          ∙ ap (λ (t : ℕ). c.scache.exclusive_ids (sc_index t)) same
          ∙ other.owned (sym together ∙ two))

      not_three : (c.dcaches p).flags i ≤ 2
      not_three = omega (
        arith,
        one.state,
        (h.entries (sc_index ((c.dcaches p).tags i)) (λ z. valid (sym one.state ∙ z))).small,
      )

module _ {M : Type 0} (bus : LineBus M) (mem : ℕ → Line) (present : ℕ → Bool) where
  -- After any run of loads, stores, flushes of the write buffer and timed writes by all the
  -- processors, from coherent caches, valid lines with the same tag in two processors are both
  -- shared and hold the same 16 bytes; so an exclusive line is then the only valid copy. The
  -- processors exist, and no access crosses the end of its line.
  pub serve_all_copies :
      (rs : List Request) (c : Caches M) (y : List Outcome × Caches M)
      → IsCoherent bus mem present c
      → AreRequests present rs
      → serve_all bus present c rs ≡ some y
      → (p q i j : ℕ) → IsLive present p
      → IsLive present q
      → p ≢ q
      → i < line_count
      → j < line_count
      → (y.1.dcaches p).flags i ≢ 0
      → (y.1.dcaches q).flags j ≢ 0
      → (y.1.dcaches p).tags i ≡ (y.1.dcaches q).tags j
      → ((y.1.dcaches p).flags i ≡ 1)
        × ((y.1.dcaches q).flags j ≡ 1)
        × ((o : ℕ) → o < 16 → (y.1.dcaches p).lines i o ≡ (y.1.dcaches q).lines j o)
  serve_all_copies rs c y h asked ran p q i j live live' ne small small' valid valid' same =
      let (z, last, e, served, coherent) = serve_all-AreServed bus present rs c mem h asked in
      let is : z ≡ y =
        ap (λ (o : Option (List Outcome × Caches M)). elim o [ none ↦ y | some r ↦ r ])
          (sym e ∙ ran) in
      copies-IsCoherent bus last present p q i j
        (subst (λ (r : List Outcome × Caches M). IsCoherent bus last present r.1) is coherent) live
        live' ne small small' valid valid' same

module _ {M : Type 0} (bus : LineBus M) (present : ℕ → Bool) where
  -- When no data cache and no entry of the Scache is valid and the write buffers are free, the
  -- caches are coherent with the memory that is behind the bus.
  pub reset-IsCoherent :
      {c : Caches M}
      → ((p i : ℕ) → (c.dcaches p).flags i ≡ line_invalid)
      → ((p w : ℕ) → w < wb_depth → (c.dcaches p).wb_indices w ≡ cache_index_invalid)
      → ((p i : ℕ) → i < line_count → (c.dcaches p).index_to_wb_index i ≡ wb_index_invalid)
      → ((s : ℕ) → c.scache.flags s ≡ line_invalid)
      → IsCoherent bus (bus.line c.memory) present c
  reset-IsCoherent {c} invalid free outside unused = record {
    each = λ p live. record {
      held = λ i lt ne. absurd (ne (invalid p i));
      unique = λ i j lt lt' ne. absurd (ne (invalid p i));
      entry = λ w lt ne. absurd (ne (free p w lt));
      back = λ i lt ne. absurd (ne (outside p i lt));
    };
    kept = λ t aligned answers. stored (λ o lt. refl);
    entries = λ s ne. absurd (ne (unused s));
  }
