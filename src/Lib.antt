-- ===== src/Lib.antt =====
-- The Linux building blocks of the i.MX8M Plus board, in a model of the C code: the frame pool that hands
-- media frames from thread to thread, the message bus that connects the processes, the audio stream, the JSON
-- reader and writer, the log, the persistent files, the life of a block, the update and the recovery of the
-- board, the command line client, and the devices.
--
-- The program. Each block is a process. libbb holds what they share: frame pools, the client of the bus, JSON,
-- logging, persistence, recovery. hal wraps the devices, middleware/bb_audio_stream.c runs three
-- audio threads over frame pools, services/bb-busd.c is the daemon of the bus, and tools holds the command
-- line programs. Blocks send each other lines on a Unix socket, and the daemon passes them on.
--
-- The files, and the code that they are about:
--   Base        Boolean tests, lists over native numbers, C strings (Base/Bytes), C's int (Base/Words), the bits
--               of a number (Base/Bits)
--   Stdio       what the code uses of C's fgets, snprintf, strstr and sscanf (Stdio/Lines, Scan, Keys)
--   Pool        libbb/bb_pool.c, one function per C function, on a record for bb_frame_pool_t;
--     Lifecycle   bb_pool_init and bb_pool_destroy, with what they give back to the allocator
--     Spsc        the lock-free queue as two threads that interleave at each atomic operation
--     Mpsc        the mutex-protected queue as calls of many producers and one consumer
--   Bus         the line protocol (Bus/Lines, Bus/Words) and libbb/bb_bus.c (Bus/Client)
--   Busd        services/bb-busd.c: the subscription table (Busd/Table), and the lines of a client and
--               the events of the main loop (Busd/Daemon)
--   Json        libbb/bb_json.c: the writer (Json/Writer), the reader (Json/Reader), decimals (Json/Decimal), and
--               the theorems (Json/Exact, Json/Object, Json/Grammar, Json/Lookup)
--   Block       libbb/bb_block.c: start, main loop and states of a block; Block/Life has the theorem
--   Led         blocks/bb-led/main.c and hal/bb_hal_led.c: commands, and the blinking thread (Led/Blink)
--   Log         libbb/bb_log.c, with the file as its bytes; Log/Rotation is about its size
--   Persist     libbb/bb_persist.c: configuration files (Persist/Config), the mounts and the machine id
--               and the boot log (Persist/Logs, BootLog), the update log (Persist/Updates, UpdateLine,
--               UpdateLog), the manufacturing data with their check sum
--               (Persist/Mfg)
--   Board       libbb/bb_board.h, for both boards: the partitions and the names of the devices
--   Update      tools/bb-update: packages and the slot in use (Update), the commands for the shell (Update/Shell),
--               the installation (Update/Install), the command line (Update/Options), and the theorems
--               (Update/Slots, Activation, Package)
--   Recovery    libbb/bb_recovery.c, with the theorems in Recovery/Partitions and Recovery/Snapshots
--   Cli         tools/bb-cli.c: a command for the LED on its way through the daemon (Cli/Command), and the lines
--               that a subscriber is shown (Cli/Stream)
--   Hal         the devices: hal/bb_hal_audio.c (Hal/Sound), bb_hal_gpio.c (Hal/Gpio), bb_hal_spi.c (Hal/Spi),
--               bb_hal_uart.c (Hal/Uart), bb_hal_rtc.c (Hal/Rtc), bb_hal_i2c.c (Hal/I2c), bb_hal_wdg.c
--               (Hal/Watchdog), bb_hal_pwm.c (Hal/Pwm) and bb_hal_display.c (Hal/Display)
--   HalTest     tools/bb-hal-test.c, over the functions of Hal and the devices of Board
--   DisplayTest tools/bb-display-test.c: the routines that draw, with the loop of draw_line in DisplayTest/Bresenham,
--               Error and Line
--   AudioTest   tools/bb-audio-test.c: the loops of both tests
--   Loopback    tools/bb-audio-loopback.c, over Audio/Lifecycle
--   Thread      libbb/bb_thread.c: what is asked of the system for a thread
--   Audio       middleware/bb_audio_stream.c:
--     Rounds      one round of the loop of each of its three threads
--     Lifecycle   bb_audio_stream_init, start, stop, destroy and stats
--     Xruns, Through, Rollback   the theorems about them
--     Shutdown, Sentinel   the end of the codec thread: its drain as calls among the atomic steps of the capture
--                          thread (Pool/Spsc), and its wake-up among the calls of Pool/Mpsc
--
-- How state and calls correspond. A C object is a record and a function that changes it returns it.
-- What a function asks of the system (send, close, free, epoll_ctl, a command for the shell) comes out as a list
-- of outputs. What the system answers (malloc, mmap, socket, recv, accept, select, epoll_wait, ioctl, system,
-- popen) is an argument, and the theorems hold for every answer unless a hypothesis says otherwise. An `int` is
-- its bit pattern below 2 ^ 32 where the code adds without a bound (the indices of the pool), and a number
-- where it counts an array. A C string is the list of its bytes without the NUL, and a file is its bytes.
--
-- Bounds and fuel. Loops are recursion on the list that they scan, or on their count. The loop of
-- remove_client, whose counter and bound both move, takes as many rounds as the entry has ids: each round
-- brings the two one closer. The loop of bb_spi_write takes one round more than there are bytes: each round
-- hands over one at least. The loop of draw_line is given one round more than the larger difference of the
-- coordinates, and the loop of test_playback one more than there are frames: both end in them. The two-thread model
-- has fewer than 2 ^ 30 frames and commits while the write index stays below 2 ^ 31 - 1: beyond that the index turns
-- negative.
--
-- Not modelled: memory orders weaker than the sequentially consistent ones that the code uses, sends that are cut
-- short, the signal handlers, and the set-up of the sockets in `main` of the daemon. In the audio threads the priority
-- and the affinity are left out, and what a codec does is an answer of each call. Of bb_json.c the functions on `double` are
-- left out, and overflow in atoi, which C leaves undefined, wraps at 32 bits. Of bb_log.c the backtrace and the crash directory are
-- left out. A command for the shell is its text: what the shell does with
-- it is not there, nor are mkdir, messages on the console and waiting times. The callbacks of a block leave its id and
-- connection alone. Of DRM the contents of the structures
-- are left out, of bb-display-test the picture that main composes, and of bb-audio-test the tone and the averages,
-- which are floating-point. Scripts, units and documents are not C code.
pub mod Base
pub mod Audio
pub mod AudioTest
pub mod Block
pub mod Board
pub mod Bus
pub mod Busd
pub mod Cli
pub mod DisplayTest
pub mod Hal
pub mod HalTest
pub mod Json
pub mod Led
pub mod Log
pub mod Loopback
pub mod Persist
pub mod Pool
pub mod Recovery
pub mod Stdio
pub mod Thread
pub mod Update
