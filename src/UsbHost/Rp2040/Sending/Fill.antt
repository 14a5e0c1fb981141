-- ===== src/UsbHost/Rp2040/Sending/Fill.antt =====
-- cotton-usb-host/src/host/rp2040.rs: a packet joins those that wait for the chip.
use cotton.Prelude.{
  ℕ, ◌+◌, ◌-◌, ◌%◌, ◌^◌, ◌≤◌, ◌≡◌, refl, sym, ap, subst, ◌∙◌, inl, Bool, true, false, not, List, [],
  ◌∷◌, ◌++◌, length, take, append_assoc, arith,
}
use cotton.Prelude.Bytes.{Bytes}
use cotton.UsbHost.Rp2040.Dpram.{
  Slot, Dpram, put_slot, put_control, next, toggle, base, load, store,
}
use cotton.UsbHost.Rp2040.Dpram.Laws.{load-store_below, load-store_above, take-load}
use cotton.UsbHost.Rp2040.Packetiser.{OutPacketiser, arm}
use cotton.UsbHost.Rp2040.Sending.{Packet, bytes_of, Alternates, index, at}
use cotton.UsbHost.Rp2040.Sending.Queue.{fill-Waiting}
use cotton.UsbHost.Rp2040.Sending.Invariant.{
  pid_after, IsOver, Marked, Marked-snoc, bytes_of-snoc, Alternates-snoc, pid_after-snoc, Queued,
  queued, IsSending,
}

-- A packet of at most 64 bytes stays in its own buffer.
pub load-store_other :
    (b : Bool) (n : ℕ) (xs m : Bytes)
    → n ≤ 64
    → length xs ≤ 64
    → length m ≡ 4096
    → load (base (index (not b))) n (store (base (index b)) xs m) ≡ load (base (index (not b))) n m
load-store_other false n xs m l k e = load-store_above 448 n 384 xs m (omega arith) (omega arith)
load-store_other true n xs m l k e = load-store_below 384 n 448 xs m (omega arith) (omega arith)

not-toggle : (b first : Bool) → not (toggle (index b) first) ≡ toggle (next (index b)) first
not-toggle false first = refl
not-toggle true false = refl
not-toggle true true = refl

module _ (size : ℕ) (buf : Bytes) (first : Bool) (sent : List Packet) (turn : Bool) where
  -- The packet joins those in the queue.
  fill-Queued :
      {over over' : Type 0} (d : Dpram) (b : Bool) (offset n : ℕ) (s : Slot) (m : Bytes)
      → (at d b).available ≡ false
      → s.available ≡ true
      → s.pid ≡ toggle (index b) first
      → load (base (index b)) s.length m ≡ load offset n buf
      → load (base (index (not b))) (at d (not b)).length m
        ≡ load (base (index (not b))) (at d (not b)).length d.memory
      → (over → ⊥)
      → (s.last ≡ true → over')
      → Queued over buf first (index b) offset d sent turn
      → Queued over' buf first
          (next (index b))
          (offset + n)
          (put_control 0 (put_slot (index b) s (d.controls 0)) (record d { memory = m }))
          sent
          turn
  fill-Queued d b offset n s m f a pid e k going last (queued ps w same alternate after marked) =
      let x : Packet = (s.pid, s.last, load (base (index b)) s.length m) in
      let assoc = append_assoc sent ps (x ∷ []) in
      queued (ps ++ x ∷ []) (fill-Waiting d turn b ps s m f a k w)
        (ap bytes_of (sym assoc)
          ∙ bytes_of-snoc (sent ++ ps) x
          ∙ ap (λ l. l ++ x.2) same
          ∙ ap (λ l. take offset buf ++ l) e
          ∙ take-load offset n buf)
        (subst (Alternates first) assoc
          (Alternates-snoc first (sent ++ ps) x alternate (pid ∙ sym after)))
        (ap (pid_after first) (sym assoc)
          ∙ pid_after-snoc first (sent ++ ps) x
          ∙ ap not after
          ∙ not-toggle b first)
        (subst (Marked _) assoc (Marked-snoc (sent ++ ps) x going last marked))

  -- The packetiser at buffer `b` after a packet of `n` bytes, which stand in memory `m`.
  abbrev pub advance : OutPacketiser → Bool → ℕ → Bool → OutPacketiser
  advance p b n need = record p {
    remain = p.remain - n;
    offset = p.offset + n;
    next_prep = next (index b);
    need_zero_size_packet = need;
  }

  abbrev pub filled : OutPacketiser → Dpram → Bool → ℕ → Bool → Bytes → Dpram
  filled p d b n last m =
      arm (index b)
        (record (at d b) {
          full = true;
          pid = toggle (index b) p.initial_pid;
          last = last;
          length = n % 2 ^ 16;
        })
        (record d { memory = m })

  pub prepared-IsSending :
      (p : OutPacketiser) (d : Dpram) (b : Bool) (n : ℕ) (last need : Bool) (m : Bytes)
      → p.next_prep ≡ index b
      → IsSending size buf first p d sent turn
      → (at d b).available ≡ false
      → n ≤ p.remain
      → n ≤ 64
      → need ≡ false
      → (IsOver p → ⊥)
      → (last ≡ true → n ≡ p.remain)
      → length m ≡ 4096
      → load (base (index b)) n m ≡ load p.offset n buf
      → load (base (index (not b))) (at d (not b)).length m
        ≡ load (base (index (not b))) (at d (not b)).length d.memory
      → IsSending size buf first (advance p b n need) (filled p d b n last m) sent turn
  prepared-IsSending p d b n last need m prep h free fits l done going ends e here there =
      let cut : n % 2 ^ 16 ≡ n = omega arith in
      let q = subst (λ k. Queued (IsOver p) buf first k p.offset d sent turn) prep h.queue in
      record {
        source = h.source;
        pid = h.pid;
        shared = omega (arith, h.shared);
        small = h.small;
        positive = h.positive;
        need = inl done;
        memory = e;
        short_0 = short_0 b;
        short_1 = short_1 b;
        queue =
            fill-Queued d b p.offset n _ m free refl (ap (toggle (index b)) h.pid)
              (ap (λ k. load (base (index b)) k m) cut ∙ here) there going
              (λ e. (omega (arith, ends e), done)) q;
      }
    where
      short_0 : (b : Bool) → ((filled p d b n last m).controls 0).slot_0.length ≤ 64
      short_0 false = let cut : n % 2 ^ 16 ≡ n = omega arith in omega arith
      short_0 true = h.short_0

      short_1 : (b : Bool) → ((filled p d b n last m).controls 0).slot_1.length ≤ 64
      short_1 false = h.short_1
      short_1 true = let cut : n % 2 ^ 16 ≡ n = omega arith in omega arith
