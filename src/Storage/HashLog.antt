-- ===== src/Storage/HashLog.antt =====
-- `HashLog` of firmware/chiyocore/src/simple_mesh/storage/packet_log.rs: a window of the hashes of the
-- latest messages, newest first. A call holds the log's mutex for no wait, so a `push` is one step.
pub mod Window
use chiyocore.Base.{Bool, true, false, ◌||◌, List, [], ◌∷◌, ℕ, leb, if◌then◌else◌, length}
use chiyocore.Base.Bytes.{Bytes, bytes_eq}

abbrev pub HashLog : Type 0
HashLog = List Bytes

abbrev pub new : HashLog
new = []

unfoldable pub contains_hash : Bytes → HashLog → Bool
contains_hash hash [] = false
contains_hash hash (h ∷ hs) = bytes_eq h hash || contains_hash hash hs

-- `VecDeque::pop_back`.
unfoldable pub pop_back : HashLog → HashLog
pop_back [] = []
pop_back (h ∷ []) = []
pop_back (h ∷ h' ∷ hs) = h ∷ pop_back (h' ∷ hs)

-- `push`, with the hash computed: the log, and whether the message is new.
unfoldable pub push : ℕ → Bytes → HashLog → HashLog × Bool
push capacity hash log =
    if contains_hash hash log
    then (log, false)
    else (hash ∷ (if leb capacity (length log) then pop_back log else log), true)
