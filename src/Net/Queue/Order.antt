-- ===== src/Net/Queue/Order.antt =====
-- The order of the received buffers.
use c_osiris.Base.{
  ◌≤◌, ◌≡◌, inl, inr, ◌↔◌, refl, ap, true, false, some, List, [], ◌∷◌, ◌++◌, arith, Bool-cases, leb,
  length, length-append,
}
use c_osiris.Net.Queue.{NetBuf, netq_max_items, netq_push, netq_shift}

-- `netq_push` keeps the queue within its limit, and a buffer that it takes goes behind all others:
-- `netq_shift` then returns the buffer at the front and, of an empty queue, the new one.
pub netq_shift-netq_push :
    (b : NetBuf) (q : List NetBuf)
    → length q ≤ netq_max_items
    → (length (netq_push b q).1 ≤ netq_max_items)
      × (((netq_push b q).0 ≡ false ↔ length q ≡ netq_max_items)
          × (((netq_push b q).0 ≡ false → (netq_push b q).1 ≡ q)
              × ((q ≡ [] → netq_shift (netq_push b q).1 ≡ (some b, []))
                  × ((c : NetBuf) (cs : List NetBuf)
                      → q ≡ c ∷ cs
                      → (netq_push b q).0 ≡ true
                      → netq_shift (netq_push b q).1 ≡ (some c, cs ++ (b ∷ []))))))
unfolding netq_push netq_shift
netq_shift-netq_push b q le = elim (Bool-cases (leb netq_max_items (length q))) [
  | inl full ↦ rw full (
    le,
    (
      ((λ h. ground arith), (λ h. refl)),
      (
        (λ h. refl),
        (
          (λ h. let none_yet : length q ≡ 0 = ap length h in absurd (ground arith)),
          λ c cs e h. absurd (cc),
        ),
      ),
    ),
  )
  | inr room ↦ rw room (
    ground (arith, length-append q (b ∷ [])),
    (
      ((λ h. absurd (cc)), (λ h. absurd (ground arith))),
      (
        (λ h. absurd (cc)),
        (
          (λ h. ap (λ l. netq_shift (l ++ (b ∷ []))) h),
          λ c cs e h. ap (λ l. netq_shift (l ++ (b ∷ []))) e,
        ),
      ),
    ),
  )
]
