-- ===== src/Lib.antt =====
-- CoreModel, the client library of a virtual machine's device bus: a model of coremodel.c and
-- coremodel.h, and of devices under examples that use it, with the theorems that make them correct.
--
-- The library keeps one connection to a virtual machine. Bytes come in through a ring, and go out
-- through a queue; packets carry a connection index, which is that of one attached interface or of
-- the query connection. Device models attach interfaces with callbacks, and are called when packets
-- for them arrive; what a callback does not take yet waits in the interface's queue.
--
-- Base               lists, numbers and machine words that the modules share
-- Packet             struct coremodel_packet and its bytes; Packet/Wire: reading them back
-- Socket             the answers of read(2) and write(2)
-- Ring               rxq, the read loop of coremodel_processfds, coremodel_process_rxq; its children
--                    view the ring as a list (Window, Stream), follow packets through it (Frames,
--                    Delivery, Fill, Rounds) and bound its loop (Enough, Endless)
-- Tx                 coremodel_push_packet and the write loop; Tx/Flow, Tx/Push
-- If                 struct coremodel_if
-- Bus                coremodel_advance_if_* and the functions of each type: Uart, Eth (what both
--                    share is Stream), I2c, Spi, Gpio, Can, Event, Usbh; Queue is the loop of
--                    coremodel_advance_if, Handler its dispatch on the type
-- Core               struct coremodel: State; Query: coremodel_list and the responses; Packets:
--                    coremodel_process_packet and the deferred packets; Attach: attaching,
--                    detaching, disconnecting; Loop: coremodel_preparefds, coremodel_processfds and
--                    coremodel_mainloop_int, its states (Loop/Steps), a call (Loop/Serving) and any
--                    number of rounds (Loop/Rounds); Deferral: a packet during an attach
-- Connect            coremodel_init and coremodel_connect: what they hold on each exit (Resources)
-- Cr3020             examples/can-cr3020-rtc/can-cr3020.c, a clock on a CAN bus: its alarm (Alarm),
--                    and its state and replies over any frames (Node)
-- Rtc                examples/i2c-ds3231-rtc/i2c-ds3231.c and examples/spi-ds3234-rtc/spi-ds3234.c, two
--                    real-time clocks: their registers (Regs), the I2C one (Ds3231) and the SPI one with
--                    its static memory (Ds3234); reads and writes (Reading, Registers, Settable), the
--                    alarms (Alarms), the memory (Memory), the answers on the buses (Answering,
--                    Transferring)
-- Keyboard           examples/usbh/coremodel-usbh.c, a USB keyboard: Descriptors; the state between
--                    transfers (Control), and what a host reads (Transfers)
-- Adxl36x            examples/i2c-adxl36x/coremodel-adxl36x.c, an accelerometer: Timers; Fifo (its
--                    children: the queue of values, and the count at 16 bits); State, Write, Read and
--                    Sampling, the code; Layout, the fields of the registers, and Registers, writes
--                    read back; Device, the order of steps;
--                    Stillness, Quiet and Detection, the timers that never expire
-- I2cMux             examples/i2c-mux/coremodel-i2c-mux.c, a multiplexer: Selection, what is attached;
--                    Transactions, what the writes of the host select
-- SpiMux             examples/spi-mux/coremodel-spi-mux.c, a multiplexer of a chip select: Selection
-- Switch             examples/eth-switch/eth-switch.c, an Ethernet switch whose address tables are in a
--                    heap: Table, the heap as a table; Forward, the frames; Purge, old entries;
--                    Arguments, the text that names one; Clients, adding and
--                    freeing one; Service, the loop
-- Examples           small programs: Cansend is examples/can-cr3020-rtc/can-cansend.c, Loopback is
--                    examples/eth/coremodel-eth.c, Blinky is examples/gpio/coremodel-blinky.c
--
-- State is passed explicitly. The callbacks are parameters that take and return the interface, the
-- transmit queue and the device's own state: in C they may also call the library for another
-- interface, which is not modelled. What they do to their own, theorems that need it limit by a named
-- hypothesis (Quiet: they leave the queue and `busy` alone; Steady:
-- they keep the interface's connection and let no later allocation fail; the modules called Keeping
-- carry it through each handler). Calls of the system are lists of outcomes: of read(2), write(2) and
-- calloc; select(2) and the clock are arguments of a round; timerfd_settime(2) and the arithmetic on
-- float are functions of the host; coremodel_connect takes what each of its calls answers. An access
-- outside an object is recorded in the flag `fault`, and the model goes on with zeros, or with a
-- divisor of 1 where the scale of the acceleration is read outside its table. One such read is not
-- recorded but modelled: that of a short packet at the end of rxq, which finds rxqwp, the next member.
--
-- Numbers are natural; the wrap-around of unsigned is written out (the indices of the ring at 2^32,
-- fields of packets at 2^16). Loops take fuel: 1025 rounds for coremodel_process_rxq, since 4096
-- bytes hold at most 1024 packets of four bytes, and (2n + 3)(n + 1) for coremodel_advance_if at n
-- packets, since a bus reset goes back to the first packet once before something is freed. The loops
-- of processfds follow the lists of answers. A search of the switch takes more rounds than the longest
-- chain has entries.
--
-- Not modelled: the mutex, which the functions hold from start to end, but for
-- coremodel_can_rx_busy and the test of the credit in coremodel_eth_rx; the threads and the main
-- function of the accelerometer, and the names of its registers for printing; the other programs
-- under examples; and coremodel.py, a binding of the library.
pub mod Base
pub mod Packet
pub mod Socket
pub mod Ring
pub mod Tx
pub mod If
pub mod Bus
pub mod Core
pub mod Cr3020
pub mod Rtc
pub mod Keyboard
pub mod Switch
pub mod Adxl36x
pub mod I2cMux
pub mod SpiMux
pub mod Examples
pub mod Connect
