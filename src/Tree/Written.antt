-- ===== src/Tree/Written.antt =====
-- What `fs_write` leaves when it returns: an image in which one file has more blocks.
use unix_like_file_system.Base.{
  ℕ, zero, suc, ◌+◌, ◌*◌, ◌-◌, ◌/◌, ◌%◌, ◌^◌, ◌≤◌, ◌<◌, ◌≡◌, ◌≢◌, refl, sym, ap, ◌∙◌, ◌⊎◌, inl, inr,
  false, arith, Bool-cases, ◌==◌, ==→eq, ==-refl, if◌then◌else◌, ltb,
}
use mathlib.Core.Path.{subst}
use mathlib.Core.Bool.{false≢true}
use unix_like_file_system.Block.{Block, block_size}
use unix_like_file_system.Block.Words.{get_u32_cong}
use unix_like_file_system.Disk.{Disk}
use unix_like_file_system.Bitmap.Alloc.{in_use}
use unix_like_file_system.Inode.{size, ptr, is_dir, rounds_up}
use unix_like_file_system.Content.{Buffer}
use unix_like_file_system.Content.Saved.{Saved}
use unix_like_file_system.Tree.{Role, unowned, content, IsInode, Marked, Node, IsTree, Consistent}
use unix_like_file_system.Tree.Apart.{content≢unowned, listing≢unowned, listing≢content}
use unix_like_file_system.Tree.Grow.{
  RoleStays, role_stays, Node-stays, EntryGrows-same, Grows-IsTree,
}
use unix_like_file_system.Tree.Find.{listing-Marked, inode-Marked}
use unix_like_file_system.Tree.Change.{listing-ne-inode}

-- The roles after the inode `n` has got `rounds` blocks, from its pointer `i` on.
abbrev given : ℕ → ℕ → Block → ℕ → (ℕ → Role) → ℕ → Role
given zero i new n role l = role l
given (suc rounds) i new n role l =
    if ptr new i == l then content n i else given rounds (i + 1) new n role l

given-ptr :
    (rounds i : ℕ) (new : Block) (n : ℕ) (role : ℕ → Role) (b : ℕ)
    → i ≤ b
    → b < i + rounds
    → ((a c : ℕ) → a < i + rounds → c < i + rounds → ptr new a ≡ ptr new c → a ≡ c)
    → given rounds i new n role (ptr new b) ≡ content n b
given-ptr zero i new n role b low high distinct = absurd (omega arith)
given-ptr (suc rounds) i new n role b low high distinct =
    elim (Bool-cases (ptr new i == ptr new b)) [
      | inl at ↦
          rw at
            (ap (content n) (distinct i b (omega arith) high (==→eq (ptr new i) (ptr new b) at)))
      | inr ne ↦
          let other : i ≢ b = λ f.
            false≢true (sym ne ∙ ap (λ j. ptr new i == ptr new j) (sym f) ∙ ==-refl (ptr new i)) in
          rw ne (
            given-ptr rounds (i + 1) new n role b (omega (arith, other)) (omega arith)
              (λ a c p q. distinct a c (omega arith) (omega arith)))
    ]

given-cases :
    (rounds i : ℕ) (new : Block) (n : ℕ) (role : ℕ → Role) (l : ℕ)
    → (given rounds i new n role l ≡ role l)
      ⊎ ((b : ℕ) × (i ≤ b) × (b < i + rounds) × (ptr new b ≡ l))
given-cases zero i new n role l = inl refl
given-cases (suc rounds) i new n role l = elim (Bool-cases (ptr new i == l)) [
  | inl at ↦ inr (i, omega arith, omega arith, ==→eq (ptr new i) l at)
  | inr ne ↦ rw ne (elim (given-cases rounds (i + 1) new n role l) [
    | inl same ↦ inl same
    | inr (b, low, high, at) ↦ inr (b, omega arith, omega arith, at)
  ])
]

module _ {d g : Disk} {role : ℕ → Role} (t : IsTree d role) {n : ℕ} (is : IsInode (role n))
    (file : is_dir (d.block n) ≡ false) {buf : Buffer} {offset len now : ℕ}
    (s : Saved d g n (d.block n) buf offset len now) where
  abbrev held : ℕ
  held = rounds_up (size (d.block n))

  abbrev total : ℕ
  total = rounds_up (size s.new)

  longer : held ≤ total
  unfolding rounds_up
  longer = ground (arith, s.new_size, s.file.fits)

  abbrev role' : ℕ → Role
  role' = given (total - held) held s.new n role

  new_role : (b : ℕ) → held ≤ b → b < total → role' (ptr s.new b) ≡ content n b
  new_role b low high =
      given-ptr (total - held) held s.new n role b low (omega (arith, longer))
        (λ a c p q. s.owns.distinct a c (omega (arith, longer)) (omega (arith, longer)))

  in_size : (b : ℕ) → b < total → b * block_size < size s.new
  unfolding rounds_up
  in_size b lt = ground (arith, lt, s.file.fits)

  -- A block whose role changes had none, and is a new block of the file.
  cases :
      (l : ℕ)
      → (role' l ≡ role l) ⊎ ((role l ≡ unowned) × Marked g l × (b : ℕ) × (role' l ≡ content n b))
  cases l = elim (given-cases (total - held) held s.new n role l) [
    | inl same ↦ inl same
    | inr (b, low, high', at) ↦
        let high : b < total = omega (arith, longer) in
        let holds = s.file.in_image b (in_size b high) in
        inr (
          elim (t.owned l) [
            | inl nothing ↦ nothing
            | inr m ↦ absurd (false≢true (sym (s.fresh b low high) ∙ ap (in_use d) at ∙ m.used))
          ],
          subst (Marked g) at (record {
            used = s.owns.used b high;
            range = s.owns.range b high;
            inside = holds.inside;
          }),
          b,
          ap role' (sym at) ∙ new_role b low high,
        )
  ]

  roles : (l : ℕ) → RoleStays role role' g l
  roles l = elim (cases l) [ inl same ↦ inl same | inr (nothing, m, b, at) ↦ inr (nothing, m) ]

  behind_map : {l : ℕ} → Marked d l → l ≢ 1
  behind_map m e = absurd (omega (arith, m.range))

  -- What is no block of the file, and not its inode, is as it was.
  other_stays :
      (l : ℕ) → l ≢ n → Marked d l → ((i : ℕ) → role l ≢ content n i) → g.block l ≡ d.block l
  other_stays l ne m other =
      s.same_files l (behind_map m) ne m.used
        (λ b lt at. other b (ap role (sym at) ∙ (t.node n is).contents file b lt)) m.inside

  inode_content : (m : ℕ) → IsInode (role m) → (i : ℕ) → role m ≢ content n i
  inode_content m inode i f = subst IsInode f inode

  same_kind : is_dir s.new ≡ is_dir (d.block n)
  unfolding is_dir
  same_kind =
      ap (λ m. m / 2 ^ 12 % 2 ^ 4 == 4)
        (get_u32_cong s.new (d.block n) 4 (s.same_fields 4 (omega arith))
          (s.same_fields 5 (omega arith)) (s.same_fields 6 (omega arith))
          (s.same_fields 7 (omega arith)))

  new_node : Node role' n s.new
  new_node = record {
    directory = λ dir. absurd (false≢true (sym file ∙ sym same_kind ∙ dir));
    fits = λ f. s.file.fits;
    contents = λ f i lt. elim (Bool-cases (ltb i held)) [
      | inl old ↦
          let old' : i < held = ground arith in
          let was = (t.node n is).contents file i old' in
          ap role' (s.same_ptrs i old') ∙ role_stays role role' roles was content≢unowned
      | inr new ↦ new_role i (ground arith) lt
    ];
  }

  inodes :
      (m : ℕ)
      → IsInode (role m)
      → (is_dir (g.block m) ≡ is_dir (d.block m)) × Node role' m (g.block m)
  inodes m inode = elim (Bool-cases (m == n)) [
    | inl e ↦
        subst (λ l. (is_dir (g.block l) ≡ is_dir (d.block l)) × Node role' l (g.block l))
          (sym (==→eq m n e))
          (
            ap is_dir s.there.content ∙ same_kind,
            subst (Node role' n) (sym s.there.content) new_node,
          )
    | inr other ↦
        let ne : m ≢ n = λ f. false≢true (sym other ∙ rw (f, ==-refl n) refl) in
        let same = other_stays m ne (inode-Marked t m inode) (inode_content m inode) in
        (
          ap is_dir same,
          subst (Node role' m) (sym same) (Node-stays role role' roles (t.node m inode)),
        )
  ]

  pub Saved-Consistent : Consistent g
  Saved-Consistent = record {
    role = role';
    is_tree = Grows-IsTree t (record {
      not_smaller = s.not_smaller;
      still_used = s.still_used;
      roles = roles;
      inodes = inodes;
      new_inodes = λ m nothing inode. elim (cases m) [
        | inl same ↦ absurd (subst IsInode (same ∙ nothing) inode)
        | inr (p, q, b, at) ↦ absurd (subst IsInode at inode)
      ];
      entries = λ e m k at lt. EntryGrows-same role' k (
          other_stays e (listing-ne-inode role at is) (listing-Marked t at)
            (λ i f. listing≢content (sym at ∙ f)));
      new_entries = λ e m k nothing at lt. elim (cases e) [
        | inl same ↦ absurd (listing≢unowned (sym at ∙ same ∙ nothing))
        | inr (p, q, b, at') ↦ absurd (listing≢content (sym at ∙ at'))
      ];
    });
  }
