-- ===== src/Socket/ByteQueue.antt =====
-- What a ring buffer of src/device/socket/connectionmanager.rs promises: a queue of at most `cap`
-- bytes that takes a packet whole or not at all.
use virtio_drivers_and_devic.Prelude.{
  ℕ, ◌+◌, min, List, [], ◌∷◌, ◌++◌, Bool, true, false, leb, if◌then◌else◌, length, take, drop,
}

abbrev pub ByteQueue : Type 0
ByteQueue = List ℕ

-- all the bytes, if they fit
unfoldable pub add : ℕ → List ℕ → ByteQueue → Bool × ByteQueue
add cap bytes q = if leb (length q + length bytes) cap then (true, q ++ bytes) else (false, q)

-- as many bytes as there are and as fit in `out`, written to its front
unfoldable pub drain : List ℕ → ByteQueue → (ℕ × List ℕ) × ByteQueue
drain out q = let n = min (length q) (length out) in ((n, take n q ++ drop n out), drop n q)

-- what a client asks of the buffer of a connection, and what it is answered
pub data Op : Type 0 where
  add_op drain_op : List ℕ → Op

pub data Reply : Type 0 where
  added : Bool → Reply
  drained : ℕ → List ℕ → Reply

unfoldable pub run : ℕ → List Op → ByteQueue → List Reply
run cap [] q = []
run cap (add_op bytes ∷ ops) q = let (done, q') = add cap bytes q in added done ∷ run cap ops q'
run cap (drain_op out ∷ ops) q =
    let ((n, out'), q') = drain out q in drained n out' ∷ run cap ops q'
