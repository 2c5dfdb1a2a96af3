-- ===== src/Disk/Writes.antt =====
-- What a block write leaves behind.
use unix_like_file_system.Base.{
  ℕ, ◌-◌, ◌^◌, ◌<◌, ◌≡◌, ◌≢◌, ◌||◌, false, leb, ◌==◌, arith, lt→ltb, ==-refl, ne→==,
}
use unix_like_file_system.Block.{Block}
use unix_like_file_system.Disk.{Disk, done, block_write, write_at}
use unix_like_file_system.Disk.Reads.{Holds}

pub block_write-done :
    (m : ℕ) (c : Block) (d : Disk)
    → 0 < m
    → m < 2 ^ 19 - 1
    → block_write m c d ≡ done tt (write_at m c d)
unfolding block_write
block_write-done m c d pos reach =
    let positive : ((m == 0) || leb (2 ^ 32 - 2 ^ 19) m) ≡ false = ground arith in
    let reachable : leb (2 ^ 19 - 1) m ≡ false = ground arith in rw (positive, reachable)

pub write_at-inside : (m l : ℕ) (c : Block) (d : Disk) → l < d.blocks → l < (write_at m c d).blocks
write_at-inside m l c d h = ground arith

pub Holds-write_at :
    {d : Disk} {l : ℕ} {b : Block} (m : ℕ) (c : Block)
    → Holds d l b
    → l ≢ m
    → Holds (write_at m c d) l b
Holds-write_at {d} {l} m c h ne = record {
  inside = write_at-inside m l c d h.inside;
  reachable = h.reachable;
  content = rw (ne→== l m ne, lt→ltb l d.blocks h.inside) h.content;
}

pub Holds-write_at_self : (m : ℕ) (c : Block) (d : Disk) → m < 2 ^ 19 → Holds (write_at m c d) m c
Holds-write_at_self m c d reach = record {
  inside = ground arith;
  reachable = reach;
  content = rw (==-refl m);
}

pub write_at-ne :
    (m l : ℕ) (c : Block) (d : Disk) → l ≢ m → l < d.blocks → (write_at m c d).block l ≡ d.block l
write_at-ne m l c d ne inside = rw (ne→== l m ne, lt→ltb l d.blocks inside)
