-- ===== src/Seri/Writer.antt =====
-- The write blocks of lua-seri.c: `struct write_block` and what works on it.
use sdy.Base.{
  List, [], drop, if◌then◌else◌, leb, length, suc, take, zero, ℕ, ◌++◌, ◌+◌, ◌-◌, ◌==◌, ◌∷◌,
}

abbrev pub block_size : ℕ
block_size = 128

-- `filled` are the blocks before `current`, in order; `ptr` is the length of `current`.
pub record WriteBlock : Type 0 where
  pub filled : List (List ℕ)
  pub current : List ℕ
  pub len : ℕ

-- `wb_init`
unfoldable pub wb_init : WriteBlock
wb_init = record { filled = []; current = []; len = 0 }

-- `if (b->ptr == BLOCK_SIZE)`, and `_again:`
unfoldable pub next_block : WriteBlock → WriteBlock
next_block b = record b { filled = b.filled ++ b.current ∷ []; current = [] }

unfoldable pub fresh_block : WriteBlock → WriteBlock
unfolding next_block
fresh_block b = if length b.current == block_size then next_block b else b

-- The rest of `wb_push`; each round of `goto _again` fills a block.
unfoldable pub wb_copy : ℕ → WriteBlock → List ℕ → WriteBlock
unfolding next_block
wb_copy zero b buf = b
wb_copy (suc fuel) b buf =
    let room = block_size - length b.current in
    let rest =
      wb_copy fuel
        (next_block (record b { current = b.current ++ take room buf; len = b.len + room }))
        (drop room buf) in
    if leb (length buf) room
    then record b { current = b.current ++ buf; len = b.len + length buf }
    else rest

-- `wb_push`
unfoldable pub wb_push : WriteBlock → List ℕ → WriteBlock
unfolding wb_copy fresh_block
wb_push b buf = wb_copy (length buf + 1) (fresh_block b) buf

unfoldable pub concat : List (List ℕ) → List ℕ
concat [] = []
concat (x ∷ xs) = x ++ concat xs

-- The bytes that the blocks hold.
unfoldable pub bytes : WriteBlock → List ℕ
unfolding concat
bytes b = concat b.filled ++ b.current

-- The loop of `seri`: whole blocks while `len` is at least a block, then the rest.
unfoldable pub seri_copy : List (List ℕ) → List ℕ → ℕ → List ℕ
seri_copy [] last n = take n last
seri_copy (b ∷ bs) last n =
    let rest = seri_copy bs last (n - block_size) in
    if n == 0 then [] else if leb block_size n then take block_size b ++ rest else take n b

-- `seri`
unfoldable pub seri : WriteBlock → List ℕ
unfolding seri_copy
seri b = seri_copy b.filled b.current b.len
