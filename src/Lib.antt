-- ===== src/Lib.antt =====
-- The RTP benchmarks of uvgRTP, live555 and ffmpeg: the parts that compute something on their own.
--
-- uvgrtp/v3c_util.cc and uvgrtp/v3c_util.hh handle V3C (V-PCC) files. A file is a first byte, which
-- says how wide the sizes are, and V3C units, each behind its size: a parameter set, or a header of
-- four bytes and a stream of NAL units behind their own sizes. The sender parses a file into a
-- `v3c_file_map` and sends the NAL units of each stream; the receiver collects the payloads in a map
-- of the same type, and writes a group of pictures when all of its units are there.
--   V3c/Types      the structures, the constants and the memory that pointers lead to
--   V3c/Bytes      `combineBytes` and `convert_size_big_endian`
--   V3c/Masks      the bit masks of the header, by evaluation on each byte
--   V3c/Header     `parse_v3c_header`, and the header that `create_v3c_unit` makes
--   V3c/Mmap       `mmap_v3c_file`
--   V3c/Write      `create_v3c_unit`, `get_gop_size` and `reconstruct_v3c_gop`
--   V3c/Receive    `init_mmap`, `copy_rtp_payload` and `is_gop_ready`
--   V3c/RoundTrip  the writer and then the parser
--   V3c/Tests      examples
-- util/ is what the programs share, and the program that makes the test files.
--   Util/Chunks      `get_chunk_sizes` of util/util.cc
--   Util/Names       `get_chunk_filename` and the `get_*_state` functions of util/util.cc
--   Util/FrameStart  `get_next_frame_start` of util/util.cc
--   Util/Files       `encode_frame` and the loops of `kvazaar_encode` of util/test_file_creation.cc
-- The senders on uvgRTP push the frames of a file and keep a frame rate.
--   Uvgrtp/Sender       `sender_thread` of uvgrtp/sender.cc
--   Uvgrtp/AtlasSender  `sender_func` of uvgrtp/sender.cc, for atlas streams
--   Uvgrtp/VpccSender   `sender_func` of uvgrtp/vpcc_sender.cc, and its `main` from the mapped file on,
--                      which joins V3c/Mmap and the four threads
--   Uvgrtp/SenderMain   `main` of uvgrtp/sender.cc from the mapped file on, with its threads
--   Uvgrtp/VpccReceiver uvgrtp/vpcc_receiver.cc: the hook, the waiting loop and the totals, and the
--                      time points of uvgrtp/uvgrtp_util.hh
--   Uvgrtp/Receiver     the hook and the waiting loop of uvgrtp/receiver.cc
--   Uvgrtp/LatencySender      uvgrtp/latency_sender.cc: the hook, the loops over chunks and over atlas
--                      units, and `sender` from the mapped file to its exit code
--   Uvgrtp/VpccLatencySender  uvgrtp/vpcc_latency_sender.cc: the hooks, `sender_func` and the totals
--   Uvgrtp/Setup        `init_v3c_streams` of uvgrtp/v3c_util.cc and `intialize_uvgrtp` of
--                      uvgrtp/uvgrtp_util.hh, as the calls that they make
--   Uvgrtp/Echo         `hook_receiver` and the four hooks of uvgrtp/latency_receiver.cc and
--                      uvgrtp/vpcc_latency_receiver.cc, which send each frame back, and their loops
-- In a latency run the sender pushes a frame, the receiver sends it back, and the sender's hook notes
-- its return; Uvgrtp/VpccLatencySender/Returns has the two ends together.
-- The sources for live555 give it the NAL units of a file, one for each call.
--   Live555/StartCode      `ff_avc_find_startcode` of live555/source.cc
--   Live555/Source         `find_next_nal` and `deliverFrame` of live555/source.cc; Source/Queues is
--                          the queue of NAL units that Source/Refines compares them with
--   Live555/Sink           the counting sinks of live555/sink.cc and live555/latsink.cc
--   Live555/LatencyReceiver  live555/latency_receiver.cc: a sink and a source with a mutex between
--   Live555/LatencySender  `deliverFrame` and `afterGettingFrame` of live555/latency_sender.cc, with
--                          the states that live555's callbacks can reach
--   Live555/Framed         `FramedSourceCustom` of util/live555_util.cc
-- The latency sender on libavformat notes a time for each packet and takes the oldest for each that
-- comes back.
--   Ffmpeg/LatencySender   the loops of `sender` and `receiver` of ffmpeg/latency_sender.cc
--   Ffmpeg/Sender          the loop of ffmpeg/sender.cc, and its `main` from the mapped file on
--   Ffmpeg/Receiver        the loop of ffmpeg/receiver.cc, and what it prints
-- udperf.cc measures UDP without a library.
--   Udperf                 the rounds of its server and its client, and its options
-- Tests has the examples of all of these, and Common what the modules share: Boolean tests, lists
-- over the native numbers, machine words, bit operations, and the result of code that can fault.
--
-- Memory is a list of bytes. A read or a write out of bounds, or another step that is undefined in
-- C++, is the fault `bad_access`, and `vector::at` out of range is `out_of_range`. Numbers wrap around where the
-- source's types do. A pointer to a block is the block or none, so freed memory and two pointers to
-- one block are not seen. What is printed is left out. The answers of uvgRTP, of kvazaar and of the
-- clock, and the frame period, a computation on doubles, are arguments.
--
-- `mmap_v3c_file` may step over a part of the file more than once only if its cursor wraps around at
-- 2 ^ 64; below 2 ^ 63 bytes each round of a loop moves the cursor forward, so that one round more
-- than the file has bytes is enough fuel. The loop of `get_next_frame_start` has one round more than
-- the buffer has bytes. The three loops of `ff_avc_find_startcode_internal` and the loop over the zeros
-- in `find_next_nal` move forward in the file, so that one round more than the file has bytes is
-- enough, and `splitIntoNals` has one round more than its chunk has bytes. `startFramedSource` has the
-- 3000 rounds of the source. All other loops run over a list: of frames, of NAL units, of what arrives
-- in each interval of a waiting loop, or of what such a loop reads in each round.
--
-- Not modelled: reading and mapping files, the set-up of sockets, of threads and of the libraries, and
-- the writing of the result files, which are input and output; live555's own callbacks;
-- live555/latsource.cc, an older copy of the sources; live555/sender.cc, live555/receiver.cc and
-- ffmpeg/latency_receiver.cc, which are glue around the libraries; the sockets of udperf.cc; the Perl
-- scripts.
pub mod Common
pub mod V3c
pub mod Util
pub mod Uvgrtp
pub mod Live555
pub mod Ffmpeg
pub mod Udperf
mod Tests
