-- ===== src/Io.antt =====
-- src/websocket.h: `block_read` and `block_write`, over what the system calls `read` and `write`
-- return. The kernel is an argument: the segments in which bytes arrive on a descriptor, and what
-- each coming `write` takes.
pub mod Read
pub mod Write
use chroagh.Base.{
  ℕ, zero, suc, ◌+◌, ◌-◌, Option, none, some, List, [], ◌∷◌, ◌++◌, true, false, min, ltb, length,
  take, drop,
}

-- What a coming `read` finds: bytes (none at all: end of file), or an error.
pub data Segment : Type 0 where
  bytes : List ℕ → Segment
  failure : Segment

-- What a coming `write` takes: at most so many bytes, or an error.
pub data Accept : Type 0 where
  took : ℕ → Accept
  refused : Accept

abbrev pub put_back : List ℕ → List Segment → List Segment
put_back [] s = s
put_back (x ∷ b) s = bytes (x ∷ b) ∷ s

-- `read(fd, _, count)`: `none` is -1. A segment longer than `count` stays for the next call, and
-- when no segment is left the other end has closed.
unfoldable pub read : ℕ → List Segment → Option (List ℕ) × List Segment
read count [] = (some [], [])
read count (failure ∷ s) = (none, s)
read count (bytes b ∷ s) = (some (take count b), put_back (drop count b) s)

-- `write(fd, _, count)`: how many bytes were taken; `none` is -1. After the script all are taken.
unfoldable pub write : ℕ → List Accept → Option ℕ × List Accept
write count [] = (some count, [])
write count (refused ∷ a) = (none, a)
write count (took k ∷ a) = (some (min k count), a)

-- The loop of `block_read`; `got` is what the buffer holds, so `tot` is its length.
unfoldable pub read_loop : ℕ → ℕ → List ℕ → List Segment → Option (List ℕ) × List Segment
read_loop zero size got s = (none, s)
read_loop (suc fuel) size got s = elim (ltb (length got) size) [
  | false ↦ (some got, s)
  | true ↦
      let (n, s') = read (size - length got) s in
      elim n [
        | none ↦ (none, s')
        | some [] ↦ (none, s')
        | some (x ∷ xs) ↦ read_loop fuel size (got ++ (x ∷ xs)) s'
      ]
]

-- The loop of `block_write` at `tot`: the returned number, the bytes that went out, and what is
-- left of the script.
unfoldable pub write_loop : ℕ → List ℕ → ℕ → List Accept → Option ℕ × ℕ × List Accept
write_loop zero buffer tot a = (none, tot, a)
write_loop (suc fuel) buffer tot a = elim (ltb tot (length buffer)) [
  | false ↦ (some tot, tot, a)
  | true ↦
      let (n, a') = write (length buffer - tot) a in
      elim n [
        | none ↦ (none, tot, a')
        | some zero ↦ (none, tot, a')
        | some (suc k) ↦ write_loop fuel buffer (tot + suc k) a'
      ]
]
