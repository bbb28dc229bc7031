-- ===== src/Lib.antt =====
-- sacd_extract reads Super Audio CDs: it takes the sectors of a disc or of its image (libsacd), cuts
-- them into frames of audio, decodes frames that are compressed by DST (Direct Stream Transfer,
-- libdstdec), and writes DSF or DSDIFF files.
--
-- The development models the decoder of DST frames, src/libdstdec:
--   Dst/Stream.antt    dst_data.c: the buffer of a frame, FillBuffer and getbits
--   Dst/Fio.antt       dst_data.c: the FIO_BitGet functions
--   Dst/Arith.antt     dst_fram.c, dst_ac.c: the arithmetic decoder
--   Dst/Unpack.antt    unpack_dst.c, conststr.h: error codes, and how fields follow each other
--   Dst/Rice.antt      unpack_dst.c: RiceDecode and Log2RoundUp
--   Dst/Segments.antt  unpack_dst.c: ReadTableSegmentData
--   Dst/Coded.antt     types.h, ccp_calc.c: prediction of filter coefficients and of probabilities
--   Dst/Ptables.antt   unpack_dst.c: ReadProbabilityTables
--   Dst/Coefs.antt     unpack_dst.c: ReadFilterCoefSets
--   Dst/Mapping.antt   unpack_dst.c: ReadTableMappingData, CopySegmentData, CopyMappingData
--   Dst/Header.antt    types.h: the header of a frame
--   Dst/Filter.antt    dst_fram.c: the tables of the prediction filters and the status of a channel
--   Dst/Frame.antt     dst_fram.c: FillTable4Bit, Reverse7LSBs and DST_FramDSTDecode behind
--                      UnpackDSTframe
--   Dst/Entry.antt     unpack_dst.c, dst_fram.c, dst_init.c: UnpackDSTframe with the functions that
--                      it calls first, DST_FramDSTDecode whole, the numbers of DST_InitDecoder
-- the pool of buffers that its threads share, and the threads:
--   Pool.antt          buffer_pool.c
--   Jobs.antt          dst_decoder.c
-- and of src/libsacd:
--   Disc/Sector.antt   scarletbook.h, scarletbook_read.c: the header of an audio sector
--   Disc/Frames.antt   scarletbook_read.c: scarletbook_process_frames
--   Dsf.antt           dsf.c: DSF files
-- Common.antt has the tests on numbers, the lists, the integers and the facts on bits that they share.
-- The modules below a file prove what it does; the modules named Tests run it.
--
-- State and operations. A struct is a record with the field names of the source. A function that
-- changes a struct takes it and returns it. Memory behind a pointer is a function from offsets to
-- bytes, so that bytes behind the end of a block have a value too; a read or a write through NULL is
-- an outcome of its own (`fault`, `none`). `malloc` is a parameter. Functions of unpack_dst.c run in
-- a small monad over the bit reader: `ok`, one of the error codes, or `stuck`.
--
-- The bit reader is described by a cursor (Dst/Stream/Cursor.antt): `at m t p` is the reader of `t`
-- bytes of `m` in front of bit `p`, and `word_at m p n` is the number that `n` bits from `p` on
-- write. Every theorem about a field is stated with them.
--
-- The last bits of a channel are a history (Dst/Filter/History.antt), a function from how many bits
-- back to the bit. The decoder of a frame is compared with one that keeps histories and computes each
-- prediction as a sum over the coefficients (Dst/Frame/Reference.antt): Dst/Filter/Fir.antt is for one
-- prediction, Dst/Frame/Output.antt for the bytes that are written, and Dst/Frame/Tables.antt for the
-- tables that the segments give. The tables Filter4Bit and Ptable4Bit are in the order of memory, with
-- MAX_DSDBITS_INFRAME cells for a channel. The status of a channel is read as four words, as the
-- update does, on a little-endian machine.
--
-- The pool of buffers is a transition system (`Step`, `Reachable`): each step is what one thread does
-- while it holds the lock of the pool, in any order.
--
-- The threads of the decoder are a transition system too: the main thread sends the frames of a track
-- one after the other, decoding threads take jobs and put them into the sorted list, and the write
-- thread hands them on. What DST_FramDSTDecode answers for a frame is a relation there, since it may
-- depend on what the thread has decoded before. The pools are not part of that state: a call that
-- waits for a buffer is a thread that does not take its step.
--
-- A sector is read as bytes of memory. The frames of a disc are described without the state of the
-- program by Disc/Frames/Packets.antt, from the audio packets of the sectors; `promised` there is what
-- a state still owes. The queues of a DSF file (Dsf/Queue.antt) say which sample of which channel
-- stands at which place of the file or of a buffer. A file is memory with a size and a limit that it
-- may grow to, so that fwrite may write less than it is asked to.
--
-- Numbers are natural numbers or integers; 32-bit registers of the arithmetic decoder wrap around by
-- `% 2 ^ 32`, and casts of the FIO_BitGet functions are written out. Code bits of the arithmetic
-- decoder are bytes that are 0 or 1: the theorems on the decoder take this as a hypothesis, and
-- Dst/Entry/Accepted.antt has it for the frames that are read.
--
-- Fuel: getbits has one round for each bit, and takes one at least; the loop that scales the
-- arithmetic decoder up has 12 rounds, where a register that is not 0 needs at most 11; a run of a
-- Rice code has as many rounds as the frame has bits, and only a run that does not end in the frame
-- needs more; a loop over segments has one round for each segment and each end of a channel.
--
-- dsf_write_frame has two rounds for each byte of its frame; it stores a byte at least in every
-- second round.
--
-- Not modelled: main.c, libcommon and the rest of libsacd; the libraries the repository has copies of (yarn,
-- libid3, nanopb, LuaSocket, getopt); of libdstdec the memory of the decoder, how its decoding
-- threads end, and the texts of the error codes. A header that a failed frame leaves half written is not kept. A read
-- behind the end of CPredOrder, for a prediction method 3, is the outcome `stuck`.
pub mod Common
pub mod Dst
pub mod Pool
pub mod Jobs
pub mod Disc
pub mod Dsf
