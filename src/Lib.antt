-- ===== src/Lib.antt =====
-- clibdpa, the DPA communication library for IQRF networks: what its code does, and what is proved of
-- it.
--
-- A user hands a DpaMessage to DpaHandler2::executeDpaTransaction. The handler makes a DpaTransaction2
-- of it and pushes it to a TaskQueue, whose one thread calls execute() on the transactions in turn:
-- execute() sends the request over the channel and waits for a condition. The channel's thread calls
-- ResponseMessageHandler with every string of bytes it receives; messages of a kind that answers a
-- request go to processReceivedMessage() of the transaction that execute() works on, which changes its
-- state, its expected duration and its DpaTransactionResult2, and wakes it. The user waits in get()
-- for the result.
--
-- The files and the code they model:
--   Base          numbers, lists and results, shared by all; no code of the library
--   Protocol      constants of include/DPA.h
--   Message       include/DpaMessage.h: the buffer of 64 bytes with its length; one function for each
--                 constructor, operator and method. The files below it prove
--   Packet        the structures and unions of include/DPA.h and the packet of include/DpaMessage.h, as
--                 declarations with sizes and offsets (Layout; General, Coordinator, NodeOs and
--                 Peripherals have the structures, Union the packets), and DpaPacket(): reading and
--                 writing a number member (Access)
--   ErrorCode     enum ErrorCode and errorCode() of include/IDpaTransactionResult2.h
--   Timing        include/IDpaTransaction2.h, and EstimateStdTimeout, EstimateLpTimeout and
--                 getFrcTimeout of Dpa/DpaTransaction2.cpp
--   TransactionResult  Dpa/DpaTransactionResult2.h and .cpp
--   Transaction   Dpa/DpaTransaction2.h and .cpp: Types has the members, Create the constructor,
--                 Execute has execute(), abort() and get(), Receive has processReceivedMessage(). Steps
--                 is the relation in which the threads meet; the other files prove
--   TaskQueue     include/TaskQueue.h: the members under the mutex, the operations, and worker() cut
--                 where it holds no lock or blocks. Steps is the relation of callers and worker
--   Handler       class DpaHandler2::Imp of Dpa/DpaHandler2.cpp: Types, Settings, Registry, Submit (what
--                 happens to a request) and Dispatch (what happens to received bytes). Steps is the
--                 relation of users, the channel's thread and the worker; the other files prove
--   Channel       IqrfSpiChannel/ (Spi) and IqrfCdcChannel/ (Cdc): construction, registration, sending
--                 with its attempts, receiving. SpiThreads is the relation of a sender, the listening
--                 thread and the worker of the queue of received messages
--   Tracer        IqrfTracer/IqrfTracer.cpp (File; SourceName and Line for tracerMessage), TRC_MSG of
--                 include/IqrfTrace.h (Line), and of include/IqrfTraceHex.h the classes TracerMemHex
--                 (Dump) and TracerMemHexChar (CharDump)
--   Example       DpaExamples/Example.cpp: the settings of the handler, and a round of its loop
--
-- State is passed explicitly: an operation takes the members and gives them back changed. What a mutex
-- makes one section is one function, and concurrent code is a relation of steps, each one section.
-- Time is not measured: a wait that ends by its time, by a notification or spuriously is the argument
-- `expired` of the section behind it, and all are possible. Exceptions are results of the type Result,
-- with the class of the exception. A uint8_t, int8_t or uint32_t has its wrap-around written out. The
-- system clock and uninitialised members are arguments.
--
-- The loop of execute() has fuel for the cycles that run without a wait, and one cycle is enough: behind
-- one cycle the code has finished or comes to a wait. The loops of sendTo have their attempts, 8 and 4,
-- for fuel, and the dumps of bytes the number of bytes. Transactions are shared objects: Handler keeps
-- them in a store, and references are positions of it.
--
-- The functor that sends, the channel as the handler sees it, the drivers under the channels and the
-- user's functions are parameters, and the results hold for every such function; where the SPI channel's
-- threads meet, the driver is one whose reads give as many bytes as they are asked for
-- (Channel.SpiPolling.Fills). Users of the handler give an int for a timeout, and may change its settings
-- and its handlers for messages between any two steps of its threads. The construction of a transaction
-- and its push are two steps, and so are the choice of the pending transaction, the reading of the
-- queue's size and the start of execute(): execute_dpa_transaction and process_transaction are these
-- with nothing in between, and the results that name them are about such runs (Handler.Uninterrupted).
--
-- Not modelled: where the code traces, and the text that strftime makes of the clock; what Example.cpp
-- prints, and its configuration of the SPI device; of include/DPA.h, the part for the compiler CC5X, and
-- the macros and enums that no code of the library reads; the drivers of the devices; a second call of
-- get(), which returns a null pointer, since the first moves the result out.
pub mod Base
pub mod Protocol
pub mod Message
pub mod Packet
pub mod ErrorCode
pub mod Timing
pub mod TransactionResult
pub mod Transaction
pub mod TaskQueue
pub mod Channel
pub mod Handler
pub mod Tracer
pub mod Example
