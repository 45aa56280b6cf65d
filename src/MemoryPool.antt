-- ===== src/MemoryPool.antt =====
-- The memory unit of src/memory_pool.c: nodes of one size, which its own thread takes and gives back, and
-- which other threads give back through a list of their own.
pub mod Inv
pub mod Tidy
mod Tests
use libsvr.Common.{
  ℕ, zero, suc, ◌+◌, ◌-◌, ◌*◌, ◌/◌, Option, none, some, Bool, true, false, not, List, [], ◌∷◌, ◌++◌,
  ltb, ◌==◌, if◌then◌else◌, add64, sub64, add32, sub32,
}

-- a block at an address, with its number of nodes, which gives `end`
pub record Block : Type 0 where
  pub address : ℕ
  pub node_count : ℕ

-- The two free lists are the addresses of their nodes in order. The first word of a node is the next
-- node of its list, or the unit itself: `signed` are the nodes where it is the unit. `tag_0` and `tag_1` are
-- the tags of the list of the other threads.
pub record MemUnit : Type 0 where
  pub blocks : List Block
  pub free_list : List ℕ
  pub cache : List ℕ
  pub signed : List ℕ
  pub unit_size : ℕ
  pub grow_count : ℕ
  pub alloc_count : ℕ
  pub blocks_size : ℕ
  pub tag_0 : ℕ
  pub tag_1 : ℕ

-- how often a node stands in a list
pub times : ℕ → List ℕ → ℕ
times p [] = 0
times p (q ∷ qs) = (if p == q then 1 else 0) + times p qs

-- `count` nodes of `step` bytes from an address on
pub nodes : ℕ → ℕ → ℕ → List ℕ
nodes step a zero = []
nodes step a (suc n) = a ∷ nodes step (a + step) n

-- the nodes of a block, behind its head of two words
abbrev pub block_nodes : ℕ → Block → List ℕ
block_nodes size b = nodes (8 + size) (b.address + 16) b.node_count

-- the bytes of a block
abbrev pub block_bytes : ℕ → Block → ℕ
block_bytes size b = 16 + b.node_count * (8 + size)

abbrev pub set_grow_bytes : MemUnit → ℕ → MemUnit
set_grow_bytes u grow_bytes = record u {
  grow_count =
      if grow_bytes == 0
      then 0
      else if ltb (16 + (8 + u.unit_size)) grow_bytes
      then (grow_bytes - 16) / (8 + u.unit_size)
      else 1;
}

-- 112 bytes are the struct itself.
abbrev pub create_memory_unit : ℕ → MemUnit
create_memory_unit size =
    set_grow_bytes
      (record {
        blocks = [];
        free_list = [];
        cache = [];
        signed = [];
        unit_size = size;
        grow_count = 0;
        alloc_count = 0;
        blocks_size = 112;
        tag_0 = 0;
        tag_1 = 0;
      })
      4096

-- `address` is where `malloc` puts the block.
pub create_memory_block : MemUnit → ℕ → ℕ → MemUnit
create_memory_block u address unit_count =
    let b : Block = record { address = address; node_count = unit_count } in
    record u {
      blocks = b ∷ u.blocks;
      free_list = block_nodes u.unit_size b ++ u.free_list;
      blocks_size = add64 u.blocks_size (block_bytes u.unit_size b);
    }

pub check_multi_free_cache : MemUnit → MemUnit
check_multi_free_cache u = record u {
  free_list = u.cache;
  cache = [];
  alloc_count = sub64 u.alloc_count (sub32 u.tag_1 u.tag_0);
  tag_0 = add32 u.tag_1 1;
  tag_1 = add32 u.tag_1 1;
}

-- the end of `_main_thread_alloc`; its `none` is the null pointer that it would follow
pub take_free : MemUnit → List ℕ → Option ℕ × MemUnit
take_free u [] = (none, u)
take_free u (p ∷ ps) = (
  some (p + 8),
  record u { free_list = ps; signed = p ∷ u.signed; alloc_count = add64 u.alloc_count 1 },
)

-- with the nodes of the other threads, or a new block
pub refilled : MemUnit → ℕ → MemUnit
refilled u address = elim (check_multi_free_cache u).free_list [
  | [] ↦ create_memory_block (check_multi_free_cache u) address u.grow_count
  | p ∷ ps ↦ check_multi_free_cache u
]

pub main_thread_alloc : MemUnit → ℕ → Option ℕ × MemUnit
main_thread_alloc u address = elim u.free_list [
  | [] ↦
      if u.grow_count == 0
      then (none, u)
      else take_free (refilled u address) (refilled u address).free_list
  | p ∷ ps ↦ take_free u (p ∷ ps)
]

-- the nodes without one
pub unsigned : ℕ → List ℕ → List ℕ
unsigned p [] = []
unsigned p (q ∷ qs) = if p == q then qs else q ∷ unsigned p qs

abbrev pub is_signed : MemUnit → ℕ → Bool
is_signed u p = not (times p u.signed == 0)

-- A free by the thread of the unit and by another one, of the memory of a node. Without the unit's sign
-- the code crashes; the sign of a node that another thread took is left out.
pub memory_unit_free : MemUnit → ℕ → Option MemUnit
memory_unit_free u mem =
    if is_signed u (mem - 8)
    then some (record u {
      free_list = (mem - 8) ∷ u.free_list;
      signed = unsigned (mem - 8) u.signed;
      alloc_count = sub64 u.alloc_count 1;
    })
    else none

pub multi_thread_free_cache : MemUnit → ℕ → Option MemUnit
multi_thread_free_cache u mem =
    if is_signed u (mem - 8)
    then some (record u {
      cache = (mem - 8) ∷ u.cache;
      signed = unsigned (mem - 8) u.signed;
      tag_1 = add32 u.tag_1 1;
    })
    else none

-- `_tidy_memory_block`: the nodes without the sign
pub tidy_nodes : MemUnit → List ℕ → List ℕ
tidy_nodes u [] = []
tidy_nodes u (p ∷ ps) = if is_signed u p then tidy_nodes u ps else p ∷ tidy_nodes u ps

-- no node has the sign
pub can_free : MemUnit → List ℕ → Bool
can_free u [] = true
can_free u (p ∷ ps) = if is_signed u p then false else can_free u ps

-- The loop of `_tidy_memory_unit`, with the nodes that are free so far and the bytes that are left. A node
-- of the other threads' list that is linked has its word overwritten: `cache` then says only how that
-- list begins.
pub tidy_loop : MemUnit → List Block → List ℕ → ℕ → MemUnit
tidy_loop u [] free size = record u { blocks = []; free_list = free; blocks_size = size }
tidy_loop u (b ∷ bs) free size = elim (can_free u (block_nodes u.unit_size b)) [
  | true ↦ tidy_loop u bs free (sub64 size (block_bytes u.unit_size b))
  | false ↦
      let rest = tidy_loop u bs (tidy_nodes u (block_nodes u.unit_size b) ++ free) size in
      record rest { blocks = b ∷ rest.blocks }
]

pub memory_unit_tidy : MemUnit → MemUnit
memory_unit_tidy u = tidy_loop u u.blocks [] u.blocks_size
