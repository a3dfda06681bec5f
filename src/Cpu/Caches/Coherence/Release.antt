-- ===== src/Cpu/Caches/Coherence/Release.antt =====
-- Entries of the write buffer are written out: the flush, the timed write, and the forced one.
use native.Mathlib.Decide.{ℕ_discrete}
use xremu.Base.{
  ℕ, zero, suc, ◌%◌, ◌≡◌, ◌≢◌, ◌<◌, ◌≤◌, ◌∙◌, sym, ap, subst, refl, arith, fun_ext, Bool, true,
  false, List, [], ◌∷◌, ◌++◌, ◌==◌, if◌then◌else◌, if_cases, update, update_self, update_same,
  update-ne,
}
use xremu.Cpu.Dcache.{
  Dcache, Line, LineWrite, wb_depth, wb_index_invalid, cache_index_invalid, release, line_write,
  flush_entry, flush_entries, flush_write_buffer,
}
use xremu.Cpu.Caches.{LineBus, Scache, Caches, with_dcache, put_all, flush}
use xremu.Cpu.Caches.Coherence.{
  IsLive, IsHeld, IsConsistent, Waits, IsKept, waits, stored, IsCoherent,
}

abbrev pub counters : Dcache → (replacement write fill cycles : ℕ) → Dcache
counters d replacement write fill cycles = record d {
  replacement_index = replacement;
  wb_write_index = write;
  wb_fill_index = fill;
  wb_cycles = cycles;
}

module _ {M : Type 0} (bus : LineBus M) (mem : ℕ → Line) (present : ℕ → Bool) where
  -- One data cache is changed, and the bus.
  pub with_dcache-IsCoherent :
      {c : Caches M} (p : ℕ) (d : Dcache) (ws : List LineWrite)
      → IsCoherent bus mem present c
      → IsConsistent bus mem c.scache p d
      → ((t : ℕ)
          → t % 16 ≡ 0
          → bus.answers t ≡ true
          → IsKept bus mem present (with_dcache bus present c p (d, ws)) t)
      → IsCoherent bus mem present (with_dcache bus present c p (d, ws))
  with_dcache-IsCoherent {c} p d ws h own kept = record {
    each = λ q live. elim (ℕ_discrete q p) [
      | yes e ↦
          subst (λ (r : ℕ). IsConsistent bus mem c.scache r (update c.dcaches p d r)) (sym e)
            (subst (IsConsistent bus mem c.scache p) (sym (update_self c.dcaches p d)) own)
      | no ne ↦
          subst (IsConsistent bus mem c.scache q) (sym (update-ne c.dcaches p q d ne))
            (h.each q live)
    ];
    kept = kept;
    entries = h.entries;
  }

  put_all-append :
      (m : M) (xs ys : List LineWrite)
      → put_all bus present m (xs ++ ys) ≡ put_all bus present (put_all bus present m xs) ys
  unfolding put_all
  put_all-append m [] ys = refl
  put_all-append m (w ∷ xs) ys = put_all-append (bus.put m w.tag w.contents) xs ys

  update_again :
      (ds : ℕ → Dcache) (p : ℕ) (d e : Dcache) → update (update ds p d) p e ≡ update ds p e
  update_again ds p d e = fun_ext λ q. again_at q (q == p)
    where
      again_at :
          (q : ℕ) (b : Bool) → (if b then e else if b then d else ds q) ≡ (if b then e else ds q)
      again_at q true = refl
      again_at q false = refl

  pub with_dcache_again :
      (c : Caches M) (p : ℕ) (d e : Dcache) (xs ys : List LineWrite)
      → with_dcache bus present (with_dcache bus present c p (d, xs)) p (e, ys)
        ≡ with_dcache bus present c p (e, xs ++ ys)
  with_dcache_again c p d e xs ys = λ i. record c {
    dcaches = update_again c.dcaches p d e i;
    memory = sym (put_all-append c.memory xs ys) i;
  }

  pub with_dcache_quiet :
      (c : Caches M) (p : ℕ) (d e : Dcache) (xs : List LineWrite)
      → with_dcache bus present (with_dcache bus present c p (d, xs)) p (e, [])
        ≡ with_dcache bus present c p (e, xs)
  unfolding put_all
  with_dcache_quiet c p d e xs = λ i. record c {
    dcaches = update_again c.dcaches p d e i;
    memory = put_all bus present c.memory xs;
  }

  pub with_dcache_same : (c : Caches M) (p : ℕ) → with_dcache bus present c p (c.dcaches p, []) ≡ c
  unfolding put_all
  with_dcache_same c p = λ i. record c { dcaches = update_same c.dcaches p i }

  release-IsConsistent :
      {sc : Scache} {p : ℕ} {d : Dcache} (w : ℕ)
      → IsConsistent bus mem sc p d
      → w < wb_depth
      → d.wb_indices w ≢ cache_index_invalid
      → IsConsistent bus mem sc p (release d w (d.wb_indices w))
  release-IsConsistent {sc} {p} {d} w h small used = record {
    held = h.held;
    unique = h.unique;
    entry = λ v lt ne. ground (arith, h.entry v lt, h.entry w small used);
    back = λ i lt ne. ground (arith, h.back i lt, h.entry w small used);
  }

  -- A waiting line of another processor, or another line of this one, goes on waiting.
  pub waits_other :
      (c : Caches M) (p q : ℕ) (d : Dcache) (ws : List LineWrite) (t : ℕ)
      → IsLive present q
      → (Waits (c.dcaches p) t → Waits d t)
      → Waits (c.dcaches q) t
      → IsKept bus mem present (with_dcache bus present c p (d, ws)) t
  waits_other c p q d ws t live mine wait = waits q live (elim (ℕ_discrete q p) [
    | yes e ↦
        subst (λ (r : ℕ). Waits (update c.dcaches p d r) t) (sym e)
          (subst (λ (e : Dcache). Waits e t) (sym (update_self c.dcaches p d))
            (mine (subst (λ (r : ℕ). Waits (c.dcaches r) t) e wait)))
    | no ne ↦ subst (λ (e : Dcache). Waits e t) (sym (update-ne c.dcaches p q d ne)) wait
  ])

  -- One data cache is changed, and what waited in it waits in it still.
  pub quiet-IsCoherent :
      {c : Caches M} (p : ℕ) (d : Dcache)
      → IsCoherent bus mem present c
      → IsConsistent bus mem c.scache p d
      → ((t : ℕ) → Waits (c.dcaches p) t → Waits d t)
      → IsCoherent bus mem present (with_dcache bus present c p (d, []))
  unfolding put_all
  quiet-IsCoherent {c} p d h own waiting =
      with_dcache-IsCoherent p d [] h own (λ t aligned answered. elim (h.kept t aligned answered) [
        | waits q live wait ↦ waits_other c p q d [] t live (waiting t) wait
        | stored same ↦ stored same
      ])

  module _ {c : Caches M} (p : ℕ) (h : IsCoherent bus mem present c) (live : IsLive present p) where
    -- Entry `w` is made free, and its line written.
    pub release-IsCoherent :
        (w : ℕ)
        → w < wb_depth
        → (c.dcaches p).wb_indices w ≢ cache_index_invalid
        → IsCoherent bus mem present (
            with_dcache bus present c p (
              release (c.dcaches p) w ((c.dcaches p).wb_indices w),
              line_write (c.dcaches p) ((c.dcaches p).wb_indices w) ∷ [],
            ))
    unfolding put_all
    release-IsCoherent w small used =
        with_dcache-IsCoherent p (release d w index) (line_write d index ∷ []) h
          (release-IsConsistent w own small used)
          (λ t aligned answered. elim (h.kept t aligned answered) [
            | waits q live' wait ↦ elim (ℕ_discrete t (d.tags index)) [
              | yes e ↦ stored (λ o lt. written t o e lt)
              | no ne ↦
                  waits_other c p q (release d w index) (line_write d index ∷ []) t live'
                    (goes_on t ne) wait
            ]
            | stored same ↦ elim (ℕ_discrete t (d.tags index)) [
              | yes e ↦ stored (λ o lt. written t o e lt)
              | no ne ↦ stored (λ o lt.
                  bus.line-put_ne c.memory (d.tags index) (d.lines index) t o line.aligned aligned
                    ne lt
                  ∙ same o lt)
            ]
          ])
      where
        d : Dcache
        d = c.dcaches p

        index : ℕ
        index = d.wb_indices w

        own : IsConsistent bus mem c.scache p d
        own = h.each p live

        line : IsHeld bus mem c.scache p index (d.tags index) (d.flags index) (d.lines index)
        line =
            own.held index (ground (arith, own.entry w small used))
              (ground (arith, own.entry w small used))

        written :
            (t o : ℕ)
            → t ≡ d.tags index
            → o < 16
            → bus.line (bus.put c.memory (d.tags index) (d.lines index)) t o ≡ mem t o
        written t o e lt =
            ap (λ (u : ℕ). bus.line (bus.put c.memory (d.tags index) (d.lines index)) u o) e
            ∙ bus.line-put c.memory (d.tags index) (d.lines index) o line.aligned line.answered lt
            ∙ line.contents o lt
            ∙ ap (λ (u : ℕ). mem u o) (sym e)

        goes_on : (t : ℕ) → t ≢ d.tags index → Waits d t → Waits (release d w index) t
        goes_on t ne wait = record {
          index = wait.index;
          small = wait.small;
          tagged = wait.tagged;
          buffered = λ b. wait.buffered (
              sym (
                update-ne d.index_to_wb_index index wait.index wb_index_invalid
                  (λ e. ne (sym wait.tagged ∙ ap d.tags e)))
              ∙ b);
        }

    pub same-IsCoherent : IsCoherent bus mem present (with_dcache bus present c p (c.dcaches p, []))
    same-IsCoherent = subst (IsCoherent bus mem present) (sym (with_dcache_same c p)) h

    flush_entry-IsCoherent :
        (w : ℕ)
        → w < wb_depth
        → IsCoherent bus mem present (with_dcache bus present c p (flush_entry (c.dcaches p) w))
    unfolding flush_entry
    flush_entry-IsCoherent w small =
        if_cases
          (λ (r : Dcache × List LineWrite).
            IsCoherent bus mem present (with_dcache bus present c p r))
          ((c.dcaches p).wb_indices w == cache_index_invalid) {x = (c.dcaches p, [])}
          {y = (
            release (c.dcaches p) w ((c.dcaches p).wb_indices w),
            line_write (c.dcaches p) ((c.dcaches p).wb_indices w) ∷ [],
          )}
          (λ _. same-IsCoherent) (λ used. release-IsCoherent w small (ground (arith, used)))

  module _ {c : Caches M} (p : ℕ) (live : IsLive present p) (h : IsCoherent bus mem present c) where
    flush_entries-IsCoherent :
        (n : ℕ)
        → n ≤ wb_depth
        → IsCoherent bus mem present (with_dcache bus present c p (flush_entries n (c.dcaches p)))
    unfolding flush_entries
    flush_entries-IsCoherent zero le = same-IsCoherent p h live
    flush_entries-IsCoherent (suc n) le =
        let (e, before) = flush_entries n (c.dcaches p) in
        let so_far : IsCoherent bus mem present (with_dcache bus present c p (e, before)) =
          flush_entries-IsCoherent n (omega arith) in
        let next : IsCoherent bus mem present (
            with_dcache bus present (with_dcache bus present c p (e, before)) p (flush_entry e n)) =
          subst
            (λ (d : Dcache). IsCoherent bus mem present (
              with_dcache bus present (with_dcache bus present c p (e, before)) p
                (flush_entry d n)))
            (update_self c.dcaches p e) (flush_entry-IsCoherent p so_far live n (omega arith)) in
        subst (IsCoherent bus mem present)
          (with_dcache_again c p e (flush_entry e n).0 before (flush_entry e n).1) next

    -- The flush of a processor's write buffer keeps the caches coherent, with the same memory.
    pub flush-IsCoherent : IsCoherent bus mem present (flush bus present c p)
    unfolding flush_write_buffer
    flush-IsCoherent = flush_entries-IsCoherent wb_depth (omega arith)

    -- The counters of a data cache do not matter.
    pub counters-IsCoherent :
        (replacement write fill cycles : ℕ)
        → IsCoherent bus mem present
            (with_dcache bus present c p (counters (c.dcaches p) replacement write fill cycles, []))
    counters-IsCoherent replacement write fill cycles =
        quiet-IsCoherent p (counters (c.dcaches p) replacement write fill cycles) h
          (record { held = own.held; unique = own.unique; entry = own.entry; back = own.back })
          (λ t mine. record {
            index = mine.index;
            small = mine.small;
            tagged = mine.tagged;
            buffered = mine.buffered;
          })
      where
        own : IsConsistent bus mem c.scache p (c.dcaches p)
        own = h.each p live
