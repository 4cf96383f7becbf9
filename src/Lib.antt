-- ===== src/Lib.antt =====
-- v4l2r, a library over the Video4Linux2 interface of the kernel: the queues of buffers with their
-- bookkeeping, the poller, the checked counterparts of the C structures, and the stateful decoder.
--
-- The program and the files that model it:
-- - lib/src/lib.rs, lib/src/memory.rs: queue types, memory types, colour descriptions, formats are in
--   Types.antt and its children; the function `n` that enumn derives is the lookup in Types/Enumn.antt.
-- - lib/src/ioctl.rs: `UncheckedV4l2Buffer` and `V4l2Buffer` are in Ioctl/Buffer.antt,
--   `V4l2MplaneFormat` is in Ioctl/Mplane.antt. C structures are records of numbers.
-- - lib/src/ioctl/decoder_cmd.rs: Ioctl/DecoderCmd.antt; lib/src/ioctl/encoder_cmd.rs:
--   Ioctl/EncoderCmd.antt; lib/src/ioctl/g_input.rs: Ioctl/Input.antt; lib/src/ioctl/enum_fmt.rs:
--   Ioctl/EnumFmt.antt.
-- - lib/src/ioctl/g_ext_ctrls.rs and lib/src/ioctl/queryctrl.rs: the checks of FWHT parameters, `CtrlWhich` and
--   `CtrlId` are in Ioctl/Controls.antt.
-- - lib/src/memory.rs and lib/src/memory/: Memory.antt is the interface `BufferHandles` through which
--   the queue sees the handles, Memory/Vectors.antt the vectors of handles that implement it.
-- - lib/src/device/queue/buffer.rs: `BufferState`, `BufferStats` and `BufferInfo::update_state` are in
--   Queue/Buffers.antt.
-- - lib/src/device/queue.rs: `BuffersAllocated`, `try_obtain_buffer`, `try_get_free_buffer`,
--   `cancel_queued_buffers` and `BufferStateFuse` are in Queue/Allocated.antt; `create`, `Drop for
--   QueueBase` and `request_buffers_generic` with lib/src/ioctl/reqbufs.rs and
--   lib/src/ioctl/querybuf.rs are in Queue/Creation.antt; `try_dequeue`, `stream_off` and
--   `free_buffers` with lib/src/device/queue/dqbuf.rs and lib/src/ioctl/dqbuf.rs are in
--   Queue/Dequeueing.antt.
-- - lib/src/device/queue/qbuf.rs and lib/src/ioctl/qbuf.rs: Queue/Queueing.antt.
-- - lib/src/device/queue/handles_provider.rs: the pool is in Queue/Pool.antt, the trait `HandlesProvider`
--   and its implementations are in Queue/Provider.antt.
-- - lib/src/ioctl/subscribe_event.rs: Ioctl/Events.antt; `is_drc_event_pending` of the capture thread is in
--   Ioctl/Events/Pending.antt.
-- - Queue/Protocol.antt puts the operations of a queue together as a step relation: who holds each
--   buffer decides which step is possible.
-- - lib/src/device/poller.rs: Poller.antt, and Poller/Events.antt for the iterator.
-- - lib/src/decoder/format.rs and lib/src/decoder/format/: Decoder/Format.antt.
-- - lib/src/decoder/stateful/capture_thread.rs: the state of the thread, `update_capture_format` and
--   `dequeue_capture_buffer` are in Decoder/Capture.antt, `enqueue_capture_buffers`, `drain` and `flush` in
--   Decoder/Capture/Commands.antt, and `run` in Decoder/Capture/Running.antt.
-- - lib/src/decoder/stateful.rs and lib/src/decoder.rs: opening and starting a decoder are in
--   Decoder/Stateful.antt, its operations while it decodes in Decoder/Stateful/Decoding.antt.
-- The capture thread is built from the queue, the poller and a provider of handles: it calls
-- `try_dequeue`, `stream_off`, `set_event` and the like of their modules. The decoder sends it commands and
-- receives its responses.
--
-- Base.antt has the shared types, the module Tests the concrete inputs.
--
-- State is passed along: an operation takes the queue and returns it. What the code shares through
-- `Arc`, the counters and the states of the buffers, is part of the record `Allocated`; a `Weak`
-- reference to a buffer is its position and the number of its allocation. Each `update_state` runs
-- under the lock of its buffer and is one step; the counters wrap at `2 ^ 64`. A value that an
-- `unwrap`, an index or an assertion may not give is in `Run`, where `panicked` is the panic.
--
-- The kernel is not modelled: its answers to the ioctls, to epoll and to eventfd are arguments. What is
-- assumed of it is named where it is used: QUERYBUF answers with the index that it is asked for, and
-- in the protocol the driver returns only buffers that it holds.
--
-- One event or command of the capture thread comes with a record `Answers` of all that is answered while
-- it is processed. The events of a turn, the commands that wait and the turns themselves are lists, so
-- that a run is an explicit sequence of steps.
--
-- Loops are structural recursion. `PollEvents::next` recurses on the number of slots that are left; the
-- loop over its items has fuel, and `3 * nb + 1` calls are enough for `nb` slots. The loop
-- over the free CAPTURE buffers has fuel, and so have that over the OUTPUT buffers and the splitters: one
-- turn more than there are free buffers, or queued ones, is enough, and two more than there are bytes; one
-- call more than there are formats ends the iterator over them.
-- Running out of fuel is `none`, apart from a panic.
--
-- Not modelled: the encoder, the generic handles, slices of controls, the ioctls that only turn an error number
-- into an enumeration, mappings of memory, the generated bindings, the FFI and the examples. The
-- two threads of a decoder are modelled one by one: what the decoder receives from the capture thread is an
-- argument of its operations, and the channels and the wakers between them are lists and counters.
-- Threads that run between the ioctl QBUF and the update of the buffer's state are not modelled either.
-- What they do between the two steps of `try_get_free_buffer` is an argument of
-- `try_get_free_buffer_during`; everything that calls `try_get_free_buffer` is modelled without them.
mod Base
pub mod Types
pub mod Ioctl
pub mod Memory
pub mod Queue
pub mod Poller
pub mod Decoder
mod Tests
