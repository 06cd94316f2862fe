-- ===== src/Cofs/Inode/Saved.antt =====
-- An inode that was written is read back, and the others are as they were.
use Prim.Native.Nat.{bit_or}
use c_osiris.Base.{
  ℕ, zero, suc, ◌+◌, ◌*◌, ◌^◌, ◌≤◌, ◌<◌, ◌≡◌, ◌≢◌, ◌⊎◌, inl, inr, refl, sym, ap, ◌∙◌, List, [], ◌∷◌,
  ◌++◌, arith, ◌==◌, eq-cases, lt-cases, length, get_or, all_below, all_below_sound, ==_iff,
}
use mathlib.Core.Path.{ap₂}
use c_osiris.Cofs.{Disk, Superblock, byte_of}
use c_osiris.Cofs.Bytes.{overlay_in, overlay_ne, overlay_out}
use c_osiris.Cofs.Inode.{
  Dinode, inode_size, num_addrs, inode_block, inode_offset, inode_out, inode_in, read_inode,
  write_inode, half, full, words_out, half_in, full_in, words_in,
}

pub or-fields : (t m : ℕ) → t < 16 → m < 4096 → bit_or (t * 4096) m ≡ t * 4096 + m
or-fields t m p q = (==_iff (bit_or (t * 4096) m) (t * 4096 + m)).0 (
    all_below_sound 4096 (λ k. bit_or (t * 4096) k == t * 4096 + k) m
      (all_below_sound 16 (λ s. all_below 4096 (λ k. bit_or (s * 4096) k == s * 4096 + k)) t refl p)
      q)

abbrev pub AllSmall : List ℕ → Type 0
AllSmall [] = Unit
AllSmall (w ∷ ws) = (w < 2 ^ 32) × AllSmall ws

-- The fields fit the widths that the disk gives them.
pub record Fits (i : Dinode) : Type 0 where
  pub type_fits : i.type < 65536
  pub major_fits : i.major < 65536
  pub minor_fits : i.minor < 65536
  pub uid_fits : i.uid < 65536
  pub gid_fits : i.gid < 65536
  pub links_fit : i.num_links < 65536
  pub atime_fits : i.atime < 2 ^ 32
  pub mtime_fits : i.mtime < 2 ^ 32
  pub ctime_fits : i.ctime < 2 ^ 32
  pub size_fits : i.size < 2 ^ 32
  pub addrs_fit : AllSmall i.addrs
  pub nine : length i.addrs ≡ num_addrs

half-bytes : (w : ℕ) → w < 65536 → byte_of w 0 + 256 * byte_of w 1 ≡ w
half-bytes w h = omega arith

full-bytes :
    (w : ℕ)
    → w < 2 ^ 32
    → byte_of w 0 + 256 * byte_of w 1 + 65536 * byte_of w 2 + 16777216 * byte_of w 3 ≡ w
full-bytes w h = omega arith

words_in_out :
    (f : ℕ → ℕ) (ws : List ℕ) (o : ℕ)
    → AllSmall ws
    → ((k : ℕ) → f (o + k) ≡ get_or (words_out ws) k 0)
    → words_in (length ws) f o ≡ ws
words_in_out f [] o small same = refl
words_in_out f (w ∷ ws) o small same =
    let e : o ≡ o + 0 = omega arith in
    let b0 = ap f e ∙ same 0 in
    ap₂ (λ (v : ℕ) (l : List ℕ). v ∷ l) (rw (b0, same 1, same 2, same 3) (full-bytes w small.0))
      (words_in_out f ws (o + 4) small.1 λ k.
        let p : o + 4 + k ≡ o + suc (suc (suc (suc k))) = omega arith in
        ap f p ∙ same (suc (suc (suc (suc k)))))

get_or-append : (xs ys : List ℕ) (k : ℕ) → get_or (xs ++ ys) (length xs + k) 0 ≡ get_or ys k 0
get_or-append [] ys k = let e : 0 + k ≡ k = omega arith in ap (λ (n : ℕ). get_or ys n 0) e
get_or-append (x ∷ xs) ys k =
    let e : suc (length xs) + k ≡ suc (length xs + k) = omega arith in
    ap (λ (n : ℕ). get_or (x ∷ (xs ++ ys)) n 0) e ∙ get_or-append xs ys k

abbrev header : Dinode → List ℕ
header i =
    half i.type
    ++ (half i.major
        ++ (half i.minor
            ++ (half i.uid
                ++ (half i.gid
                    ++ (half i.num_links
                        ++ (full i.atime ++ (full i.mtime ++ (full i.ctime ++ full i.size))))))))

inode_in_out : (i : Dinode) → Fits i → inode_in (λ k. get_or (inode_out i) k 0) ≡ i
unfolding inode_in inode_out
inode_in_out i h =
    let tail =
      words_in_out (λ k. get_or (header i ++ words_out i.addrs) k 0) i.addrs 28 h.addrs_fit
        (get_or-append (header i) (words_out i.addrs)) in
    rw
      (
        half-bytes i.type h.type_fits,
        half-bytes i.major h.major_fits,
        half-bytes i.minor h.minor_fits,
        half-bytes i.uid h.uid_fits,
        half-bytes i.gid h.gid_fits,
        half-bytes i.num_links h.links_fit,
        full-bytes i.atime h.atime_fits,
        full-bytes i.mtime h.mtime_fits,
        full-bytes i.ctime h.ctime_fits,
        full-bytes i.size h.size_fits,
        ap (λ (n : ℕ). words_in n (λ k. get_or (header i ++ words_out i.addrs) k 0) 28) (sym h.nine)
            ∙ tail,
      )
      refl

module _ (f g : ℕ → ℕ) where
  half_ext : (o : ℕ) → ((k : ℕ) → k < 2 → f (o + k) ≡ g (o + k)) → half_in f o ≡ half_in g o
  half_ext o same =
      let e : o ≡ o + 0 = omega arith in
      rw (ap f e ∙ same 0 (omega arith) ∙ ap g (sym e), same 1 (omega arith)) refl

  full_ext : (o : ℕ) → ((k : ℕ) → k < 4 → f (o + k) ≡ g (o + k)) → full_in f o ≡ full_in g o
  full_ext o same =
      let e : o ≡ o + 0 = omega arith in
      rw
        (
          ap f e ∙ same 0 (omega arith) ∙ ap g (sym e),
          same 1 (omega arith),
          same 2 (omega arith),
          same 3 (omega arith),
        )
        refl

  words_ext :
      (n o : ℕ) → ((k : ℕ) → k < 4 * n → f (o + k) ≡ g (o + k)) → words_in n f o ≡ words_in n g o
  words_ext zero o same = refl
  words_ext (suc n) o same =
      ap₂ (λ (v : ℕ) (l : List ℕ). v ∷ l) (full_ext o λ k h. same k (omega arith))
        (words_ext n (o + 4) λ k h.
          let e : o + 4 + k ≡ o + (4 + k) = omega arith in
          ap f e ∙ same (4 + k) (omega arith) ∙ ap g (sym e))

  -- An inode is its 64 bytes.
  inode_ext : ((k : ℕ) → k < inode_size → f k ≡ g k) → inode_in f ≡ inode_in g
  unfolding inode_in
  inode_ext same =
      rw
        (
          half_ext 0 (λ k h. same (0 + k) (omega arith)),
          half_ext 2 (λ k h. same (2 + k) (omega arith)),
          half_ext 4 (λ k h. same (4 + k) (omega arith)),
          half_ext 6 (λ k h. same (6 + k) (omega arith)),
          half_ext 8 (λ k h. same (8 + k) (omega arith)),
          half_ext 10 (λ k h. same (10 + k) (omega arith)),
          full_ext 12 (λ k h. same (12 + k) (omega arith)),
          full_ext 16 (λ k h. same (16 + k) (omega arith)),
          full_ext 20 (λ k h. same (20 + k) (omega arith)),
          full_ext 24 (λ k h. same (24 + k) (omega arith)),
          words_ext num_addrs 28 (λ k h. same (28 + k) (omega arith)),
        )
        refl

pub read_inode-write_inode_self :
    (sb : Superblock) (n : ℕ) (i : Dinode) (d : Disk)
    → Fits i
    → read_inode sb n (write_inode sb n i d) ≡ i
unfolding read_inode write_inode
read_inode-write_inode_self sb n i d h =
    inode_ext _ (λ k. get_or (inode_out i) k 0)
      (λ k lt.
        overlay_in (inode_block sb n) (inode_offset n) inode_size (λ j. get_or (inode_out i) j 0) d
          k lt)
    ∙ inode_in_out i h

pub read_inode-write_inode_ne :
    (sb : Superblock) (n m : ℕ) (i : Dinode) (d : Disk)
    → m ≢ n
    → read_inode sb m (write_inode sb n i d) ≡ read_inode sb m d
unfolding read_inode write_inode
read_inode-write_inode_ne sb n m i d ne = inode_ext _ _ λ k lt.
    elim (eq-cases (inode_block sb m) (inode_block sb n)) [
      | inr other ↦
          overlay_ne (inode_block sb n) (inode_offset n) inode_size (λ j. get_or (inode_out i) j 0)
            d (inode_block sb m) (inode_offset m + k) other
      | inl same ↦
          overlay_out (inode_block sb n) (inode_offset n) inode_size (λ j. get_or (inode_out i) j 0)
            d (inode_block sb m) (inode_offset m + k) (apart k lt same)
    ]
  where
    apart :
        (k : ℕ)
        → k < inode_size
        → inode_block sb m ≡ inode_block sb n
        → (inode_offset m + k < inode_offset n) ⊎ (inode_offset n + inode_size ≤ inode_offset m + k)
    apart k lt same = elim (lt-cases (inode_offset m + k) (inode_offset n)) [
      | inl l ↦ inl l
      | inr g ↦ inr (omega (arith, ne))
    ]
