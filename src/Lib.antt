-- ===== src/Lib.antt =====
-- Models of parts of SectorOS, a small 32-bit operating system, and what is proved of them.
--
-- The parts
-- * The JD1618 emulator (loaders/JD1618.cpp, loaders/JD1618.h), in Emulator. `Cpu` is the struct CPU,
--   with every register and one-bit flag a number; `Ram` is the array of 64 KiB, a function of the
--   address. Each case of the big switch of `ExecuteFromMemory` is a function: `move`, `jump` and
--   the conditional jumps, `decrement`, `increment`, `add_registers`, `sub_registers`,
--   `compare_registers`, `int_case`, `halt_case`. `execute` is that switch, `cost` the first one, `step`
--   one round of the loop, `run` the loop, and `load_prg` is `LoadPRG`. What the machine prints is a
--   list of events. An access outside the array is a fault, `none`.
-- * The memory manager (Memory/MemoryManagement.cpp), in Memory. The heap is a function from an address to
--   the chunk header there; `mem_allocate` is `MemAllocate`, `find_chunk` its search and `split_chunk` its
--   split, and `mem_free` and `mem_reallocate` are the methods of those names. Memory/Blocks holds the
--   abstract view, a list of blocks with first fit on it. The other parts take
--   their own allocations to succeed, or take the answer as an argument.
-- * The transmission control protocol (Network/tcp.cpp, Network/tcp.h), in Network/Tcp. `on_received` is
--   `OnInternetProtocolReceived`: `find_socket` the loop over the sockets, `dispatch` the switch over
--   the flags, with a function for each group of cases, and `finish` the reset behind it. `send` is
--   `Send`, with the segment as its bytes. `connect`, `listen_on`, `disconnect` and `bind` are the
--   methods of those names. A handler is an object of a class that this code does not fix: it is a
--   parameter, a function from the socket and the data to its answer, what it did to the socket, and
--   what it sent. A call through the null handler is `none`. Network/Tcp/Diagram has the diagram of the
--   states, by the flags of a segment as bits.
-- * The layers below it. Network/EtherFrame.cpp is in Network/Ethernet, with `on_raw_data_received` and
--   `send_frame`; Network/arp.cpp in Network/Arp, with `on_arp_received`, `resolve` and the messages;
--   Network/InternetProtocolV4.cpp in Network/Ip, with `on_packet_received` and `send_packet`, and its
--   checksum in Network/Checksum; Network/ICMP.cpp in Network/Icmp. A layer hands a buffer up by its
--   bytes and their number, and a handler returns whether the buffer is to be sent back, and the
--   buffer as it leaves it. Handlers are virtual in the source: a table of them is a function from the
--   type or the protocol, over a state that the handlers share.
-- * User datagrams (Network/udp.cpp), in Network/Udp, with `on_udp_received`, `send_datagram` and the
--   methods of a provider; `udp_handler` is the provider as the handler of protocol 17 of the layer below. The byte swaps that the layers write out, and the fields of their packed
--   structs, are in Network/ByteOrder.
-- * The task manager (kernel/MultiTask.cpp), in Kernel/Tasks: `add_task`, `schedule` and `switch_task`. A
--   read through an array entry that no task was stored in is `none`. Nothing else in the kernel calls
--   `Schedule`.
-- * The keyboard and the shell in it (Drivers/Keyboard.cpp, the key tables of Include/Public_VAR.h), in
--   Drivers/Keyboard. `handle_interrupt` is `HandleInterrupt`, with `store_key` in front of the switch
--   and `on_key` the switch; `command_interpreter` is `CommandInterpreter`, with `command_of` the tests
--   of its chain and `carry_out` the branches. What is printed, and the calls of other components, are a
--   list of events. `key_buffer` holds pointers to texts of one character that are compared with
--   literals: each is the code of its character, as equal literals are one object.
-- * The driver of the network card (Drivers/AM79C973.cpp), in Drivers/Card: the rings of descriptors over a
--   memory of bytes, with `send_raw` for `send`, and `receive`. The layers above are its raw data handler.
-- * The real-time clock (Drivers/RTC.cpp), in Drivers/Clock, and the mouse (Drivers/Mouse.cpp), in
--   Drivers/Mouse. The device of the clock is a function from a register and its state; the calls of the
--   mouse's handler are a list of events.
-- * The hard disk (Drivers/HDD-ATA.cpp), in Drivers/Disk: `read28`, `write28`, `flush` and `identify`. What
--   was written to the ports is a list of events, and the device a function from that list to what it
--   answers.
-- * The partition table and the FAT32 directory (Filesystem/MSDOSPT.cpp, Filesystem/FATFS.cpp), in
--   Filesystem, over the disk: `read_partitions`, `read_bios_block`, with `read_cluster` and `read_file` the
--   two loops over the sectors of a file.
-- * The scan of the PCI buses (Hardcom/pci.cpp), in Pci, which adds to the list of drivers
--   (Drivers/Driver.cpp) in Drivers/Manager: `select_drivers` is `SelectDrivers`, with a function for each
--   of its loops. Pci/Cards has the cards of the configuration space by the addresses of its registers.
-- * The dispatch of interrupts (CPU/Interrupts.cpp) and the system calls (CPU/syscall.cpp), in Interrupts:
--   `do_handle_interrupt` and `handle_syscall`. The kernel makes the handler of system calls for number 0x80
--   with the offset 0x20 of its hardware interrupts, which the stubs add too, so that the interrupt
--   arrives as 0xA0: `new_syscall_handler` is that constructor. `printf` in a task switch is its text.
-- * The descriptor table (kernel/gdt.cpp), in Kernel/Gdt.
-- * `INTTOCHARPOINT` (kernel/kernel.cpp), in Kernel/IntText, with its table of texts in
--   Kernel/IntText/Table.
-- * The console (kernel/kernel.cpp), in Kernel/Console: `printf`, `print_char` for `printfchar`, `date_text` for
--   `PrintDate` and `print_time`. Video memory is a function from a cell to its 16 bits.
-- Base holds the words, lists, bits and fallible steps that all of them use.
--
-- Numbers are natural numbers, and what the source keeps in w bits is reduced modulo 2^w wherever it
-- could leave them. Bits are combined by the native `bit_and` and `bit_or`.
--
-- Fuel
-- * `run` counts rounds of the emulator. A program may loop forever, so that no bound exists; what is
--   proved holds for each number of rounds, or gives the rounds that are enough.
-- * `load_loop` needs one round more than the bytes that it copies, and with a limit past the top of
--   memory no fuel is enough, as the loop does not end.
-- * `find_chunk` needs one step more than there are chunks on the list; on a list with a cycle, which
--   `MemFree` can make, no fuel is enough.
-- * `poll` counts the rounds in which `Resolve` waits for an answer, which an interrupt brings in: one
--   round is enough once the cache has the address, and without it no fuel is.
-- * `receive` needs one round more than the descriptors that the card has handed over: nine at most.
-- * `fold` runs on `fold_fuel`, 4: every 32-bit sum is folded in three rounds at most.
-- * `wait_for_update` and `read_twice` count the readings of a clock that may never settle; one round of each
--   is enough for one that does not change meanwhile. `wait_ready` counts the readings of the status of a
--   disk, and one more than it is busy for is enough.
-- * `read_cluster` needs two rounds more than the cluster has sectors, and `read_file` at most as many rounds
--   more as the file has bytes; without sectors in a cluster no fuel is enough.
-- * `printf` counts the calls of itself within one another: one is enough for lines, as the top of a new screen
--   does not fill it.
--
-- Not modelled
-- * The forwarding members of `CPU1618::System`, and `ReadByte`, which nothing calls.
-- * The default TCP handler, which prints and answers HTTP requests; the failing allocation of a send
--   buffer, which the source does not look for; what a send of 65500 bytes or more writes behind
--   its buffer, whose length is a wrapped 16-bit number.
-- * The order of the two reads in `PRG[at++] | (PRG[at++] << 8)`, which the language leaves open: the
--   low byte is taken to be read first, as the loader means it.
-- * The bytes of the heap behind the chunk headers, and the operators new and delete, which forward to
--   the memory manager.
-- * What ICMP prints for an answer, and the constructors of the network layers, which clear their tables
--   of handlers.
-- * The strings of Include/string.cpp and the list of Structures, which are copies of another project's.
-- * The registers of the network card, and its touching a descriptor while the driver looks at it.
-- * The set-up of the interrupt controllers and of the processor's table, and the assembler stubs.
-- * What a custom shell does, and the constructor's port accesses of the keyboard; the key for which
--   `KeycodeToASCII` returns an uninitialised pointer stores a text of one character that is not known,
--   an argument of the model. `exec` and the other commands that call another component are that call.
-- * `ExecutePRG`, which jumps into what it read, and `listFiles`, which writes through an uninitialised pointer;
--   the prompt and the rest of the kernel's file; the graphics, the serial port, the activation of the
--   mouse at its ports, and the rest of the shell.
pub mod Base
pub mod Emulator
pub mod Network
pub mod Kernel
pub mod Memory
pub mod Drivers
pub mod Interrupts
pub mod Pci
pub mod Filesystem
