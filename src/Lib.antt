-- ===== src/Lib.antt =====
-- The core of a library of VirtIO drivers and devices (src/), modelled and verified.
--
-- The parts and how they interact. A driver owns virtqueues (src/queue.rs). It allocates one in DMA
-- memory that its platform provides (the trait Hal, src/hal.rs), with page arithmetic from
-- src/lib.rs, puts chains of buffers into its descriptor table (`add`) and takes them back when the
-- device has used them (`pop_used`). A device has the other side of the queue: it pops the chains,
-- maps their buffers (the trait DeviceHal) and marks them used. The socket device
-- (src/device/socket) sends packets through such queues, counts the room that the peer of a
-- connection has left, and keeps a ring buffer of bytes received and not yet read; its connection
-- manager keeps the list of connections and answers what the peers send.
--
-- Which file models what:
--   Error: the errors of src/lib.rs and src/device/socket/error.rs; a call with `&mut` state is a
--     function of that state that returns, fails or panics.
--   Memory: PAGE_SIZE, align_up and pages of src/lib.rs.
--   Hal: Dma and DeviceDma of src/hal.rs. The traits Hal and DeviceHal and the allocator are
--     parameters of the development, with a state of their own; what a theorem assumes of them,
--     such as that memory is released without an error, is among its hypotheses.
--   Transport: what queues call of the trait Transport of src/transport/mod.rs, a parameter; Init is
--     its begin_init and finish_init. Transport/Pci is src/transport/pci/bus.rs: Cam has the offsets
--     of the configuration space, Devices the enumeration of a bus, Capabilities the list of
--     capabilities and Bars the base address registers; Regions and Open are get_bar_region and
--     PciTransport::new of src/transport/pci.rs. The loop over the functions of a bus has
--     fuel for one more than the 256 that there are, and that of bars for one more than the six
--     registers.
--   Queue: src/queue.rs. Descriptor and State hold its data; Layout is VirtQueueLayout; New is
--     VirtQueue::new; Add is add, add_direct and add_indirect; Pop is pop_used, peek_used,
--     recycle_descriptors and should_notify. Device is DeviceVirtQueue, with its new in Device/Open
--     and the copies of poll and wait_pop_add_notify in Device/Copy, and Exchange a request on its way
--     through both. Owning is OwningQueue of src/queue/owning.rs. Chain and Valid say what a chain of
--     descriptors and a well-formed queue are; Notify has the notification rule of the VirtIO specification.
--   Socket: RingBuffer of src/device/socket/connectionmanager.rs, and the ByteQueue that it
--     implements; Protocol is src/device/socket/protocol.rs, Event and Connection are the events,
--     the connections and the trait VirtIOSocketManager of src/device/socket/vsock.rs; Packet is its
--     read_header_and_body. ConnectionManager has the operations of
--     src/device/socket/connectionmanager.rs and Poll its two polls, over the trait as an interface,
--     of which begin_poll and end_poll are what a queue does before and after its handler and
--     has_memory is the allocator's answer. One call runs at a time, so that a shared connection is
--     its place in the list. Vec is what it uses of the lists of Rust.
-- Prelude has the lemmas on lists, counts and bits that they share.
--
-- Conventions. Machine integers are natural numbers with the wrap-around written out; a `u16` or
-- an address that overflows without wrapping_add panics, as in a build with overflow checks. Where a
-- build without them lets a wrong region pass, in Regions, the model has both builds. An allocation
-- may fail: theorems that need memory say so. The tables and rings that driver and device share are
-- fields of the queue: the driver never reads its descriptor table back, and theorems on `pop_used`
-- assume nothing of what the used ring holds but its length. An indirect table is a field as well,
-- although the code reads addresses back from it. Loops run over a list, but for those of
-- Transport/Pci and the device's walk of a chain: that has fuel, the number of descriptors that it
-- may visit, and the length of the chain is enough. A capability list may be cyclic: `capabilities`
-- and PciTransport::new have as fuel the number of capabilities that they read.
--
-- Not modelled: memory fences and orderings, volatile accesses, threads, the operations of a
-- transport on its registers, and the drivers of the other devices. Indirect descriptors are
-- modelled; the theorems on well-formed queues are about queues without them.
pub mod Prelude
pub mod Error
pub mod Memory
pub mod Hal
pub mod Transport
pub mod Queue
pub mod Socket
