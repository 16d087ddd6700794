-- ===== src/Lib.antt =====
-- The C part of AndroidRTLPower, an Android application that records spectra with an RTL2832
-- dongle (app/src/main/jni). `rtlsdrdevice.c` holds rtl_power: `frequency_range` lays hops over
-- a band, `scanner` reads each hop, filters and transforms the samples and adds up the power of
-- each bin, `csv_dbm` writes the result. A second part serves raw samples over TCP: `sdrtcp.c`
-- moves buffers of `extbuffer.c` through the pool of `workpool.c`, whose queues are those of
-- `queue.c`.
--
-- The parts that are modelled, all of app/src/main/jni:
--   * Queue: queue.c, `queue_add` and `queue_pop` over an explicit heap (Points and Chain: what
--     a queue is in the heap; Add, Pop: one call; Fifo: histories of calls).
--   * ExtBuffer: extbuffer.c, its four functions over an allocator (Valid, Reuse).
--   * Power: rtlsdrdevice.c from `struct tuning_state` on. Filter is `fifth_order`,
--     `remove_dc`, `generic_fir` and `downsample_iq`; Fft is `FIX_MPY` and `fix_fft` (Reversal
--     is its first loop, Bounds the cells that it writes, Table the entries of the sine table
--     that it reads); Window is the window functions and the tables made of them; Range is
--     `frequency_range`, over the globals in Tune.
--   * Power/Csv: `rms_power`, `real_conj` and `csv_dbm`; a row is what `fprintf` is given.
--   * Power/Scan: `scanner`, as a composition of the above; what the driver reads is a
--     parameter. Boxcar is its downsampling loop, Frames the number of samples of a hop.
--   * Power/Recording: `mainCOPIED` with the options that it fixes, over a record of the
--     outside world; the loop recurs on fuel, one for each round, and Whole shows how much is
--     enough.
--   * Power/Control: the functions through which Java runs a recording, around Recording.
--   * Device: the tuner's side of rtlsdrdevice.c: `set_gain_by_index`, `set_gain_by_perc`,
--     `nearest_gain`, `tcpCommandCallback` with SUPPORTED_COMMANDS, and (Session) `openAsync`
--     from `rtlsdr_open2` on. Tools is the `verbose_` functions. librtlsdr is a parameter that
--     answers each call; a run is the log of calls. Handle is `rtlsdr_android_t`, the object
--     that Java holds, with the callbacks and the ends of `openAsync` that set its device.
--   * WorkPool: workpool.c. Contents is one call of queue.c among the queues of a pool;
--     Invariant says where the buffers are, with Calls, Unlock and Freeing for the functions;
--     Runs is the threads that share a pool, step by step. `pool_free` recurs on fuel, more
--     than the elements of any queue.
--   * Jni: common.c, the log and the exceptions as threads of the Java VM see them.
--   * SdrTcp: sdrtcp.c, the functions that other threads call, with the stages of the server.
--     Transfer is the loops of `serveClient` and `commandListener` that move bytes (Complete,
--     Arriving, Failing), Server the threads around them. Pipeline is the way of the samples
--     from `sdrtcp_feed` through the pool to the client, as steps of two threads. Their loops
--     recur on the list of what happens in each turn.
--   * Threading: threading.c, step by step; Runs is the threads that use it.
--   * Suffix: `atofs`, `atoft`, `atofp` of rtlsdrdevice.c.
--   * Double: the type `double`, a parameter with the operations that the code calls.
--     Double/Exact states the three facts of arithmetic that a recording needs, for numbers
--     below 2^31.
-- Base holds the shared names, integers of a fixed width and lemmas. The Examples files apply
-- the theorems to concrete inputs.
--
-- Integers are mathematical ones, wrapped where the code converts or may overflow. Faults
-- (NULL, a division by zero, an access behind a block of the heap) are `none`. The arrays of
-- the signal path (`fft_buf`, `buf8`, `avg` and the tables) are functions of the index: an
-- access behind their end is not a fault. The `long` sum of `remove_dc` has 32 bits, and the
-- `long` powers in `avg` are not bounded. Loops recur on the rounds left or on fuel: the
-- filters take `length`, which is enough because each round moves the counter forward. `malloc`
-- is a parameter, except where a file says that it is taken to work.
--
-- Not modelled: the libraries libusb and rtlsdr (copies of other projects), the Java code, the
-- messages of the log, `queue_unit_test`, and of `mainCOPIED` the reading of its options.
-- Floating point is a parameter, so nothing is said of its rounding.
pub mod Base
pub mod Device
pub mod Double
pub mod ExtBuffer
pub mod Jni
pub mod Power
pub mod Queue
pub mod SdrTcp
pub mod Suffix
pub mod Threading
pub mod WorkPool
