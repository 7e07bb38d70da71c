-- ===== src/Socket/Protocol.antt =====
-- The packet header and the operations of src/device/socket/protocol.rs.
use virtio_drivers_and_devic.Prelude.{ℕ, ◌==◌, ◌&&◌, Bool, if◌then◌else◌}
use virtio_drivers_and_devic.Error.{SocketError, unknown_operation, unexpected_data_in_packet}

-- `SocketType`, as numbers
abbrev pub stream : ℕ
stream = 1

-- `VsockAddr`
pub record VsockAddr : Type 0 where
  pub cid : ℕ
  pub port : ℕ

abbrev pub same_addr : VsockAddr → VsockAddr → Bool
same_addr a b = (a.cid == b.cid) && (a.port == b.port)

-- `VirtioVsockHdr`
pub record VirtioVsockHdr : Type 0 where
  pub src_cid : ℕ
  pub dst_cid : ℕ
  pub src_port : ℕ
  pub dst_port : ℕ
  pub len : ℕ
  pub socket_type : ℕ
  pub op : ℕ
  pub flags : ℕ
  pub buf_alloc : ℕ
  pub fwd_cnt : ℕ

-- `Default` of `VirtioVsockHdr`
abbrev pub default_header : VirtioVsockHdr
default_header = record {
  src_cid = 0;
  dst_cid = 0;
  src_port = 0;
  dst_port = 0;
  len = 0;
  socket_type = stream;
  op = 0;
  flags = 0;
  buf_alloc = 0;
  fwd_cnt = 0;
}

-- `VirtioVsockOp`
pub data VirtioVsockOp : Type 0 where
  invalid request response rst shutdown rw_op credit_update credit_request : VirtioVsockOp

-- `From<VirtioVsockOp>`
abbrev pub from_op : VirtioVsockOp → ℕ
from_op invalid = 0
from_op request = 1
from_op response = 2
from_op rst = 3
from_op shutdown = 4
from_op rw_op = 5
from_op credit_update = 6
from_op credit_request = 7

-- what a function of this module returns
pub data Parsed {ℓ} (A : Type ℓ) : Type ℓ where
  accepted : A → Parsed A
  rejected : SocketError → Parsed A

-- `TryFrom` for `VirtioVsockOp`, with the arms of its `match` in their order
unfoldable pub try_from_op : ℕ → Parsed VirtioVsockOp
try_from_op v =
    if v == 0
    then accepted invalid
    else (if v == 1
        then accepted request
        else (if v == 2
            then accepted response
            else (if v == 3
                then accepted rst
                else (if v == 4
                    then accepted shutdown
                    else (if v == 5
                        then accepted rw_op
                        else (if v == 6
                            then accepted credit_update
                            else (if v == 7
                                then accepted credit_request
                                else (rejected (unknown_operation v)))))))))

-- `source` and `destination`
abbrev pub source : VirtioVsockHdr → VsockAddr
source h = record { cid = h.src_cid; port = h.src_port }

abbrev pub destination : VirtioVsockHdr → VsockAddr
destination h = record { cid = h.dst_cid; port = h.dst_port }

-- `check_data_is_empty`, before what follows it
abbrev pub check_data_is_empty {ℓ} : {A : Type ℓ} → VirtioVsockHdr → A → Parsed A
check_data_is_empty h a = if h.len == 0 then accepted a else rejected unexpected_data_in_packet
