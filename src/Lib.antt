-- ===== src/Lib.antt =====
-- The SMS gateway that connects bulletin board systems (BBS) with a mobile operator.
--
-- A BBS talks to the gateway over TCP through the library libbbssms. For each BBS the gateway runs
-- one process of the class CSMSBBSChildProtocol, which serves the packets of the BBS, keeps the
-- registrations and the daily totals of its users in MySQL, hands messages for phones to a storage
-- in the file system, and passes messages of phones from another directory on to the BBS.
--
-- The files, by the part of the program that they model:
-- - Wire: smsbbsprotocoldefine.h, the packets as bytes. Wire/Codec holds sms_byteToLong and
--   sms_longToByte, Wire/Head the header, Wire/Packets the fields of each packet, Wire/Cmd the
--   constants.
-- - Sms: sms.h, the record SMSMessage; Sms/Layout holds its bytes.
-- - Gateway: smsbbschildprotocol.h. Gateway/World is the state of a process and the interface to
--   its services; Gateway/Database is what is relied on of MySQL. Each operation is a function of
--   the same name in snake case, in Message (generateSMS, convertSMS), Billing (countMoney, getFee of
--   smsmysqlfeecodegetter.h, sendSMS), Link (getSerial, doSendMsg, doReply), Register (validation
--   codes and registrations), Bind (requests to bind and the replies to them), Command (the commands
--   of a phone), Deliver (Send, deliverSMS), Dispatch (doSend, dispatchMessage, and canSendSMS of
--   smsbbschildprivilegechecker.h) and Texts (the texts for the phones, in UTF-8).
--   Gateway/StartChild is doStartChild, which ends the process that served the BBS before.
-- - Clearer: sms_money_clearer.cpp. Gateway/Account is the account that the row of a user stands
--   for, and what the charges, the commands about money and the clearing post to it.
-- - Client: libbbssms/libbbssms.c, the library on the side of the BBS: the packets and the
--   operations that write them; Client/Receive is sms_login, sms_getReply and the rest.
-- - Stream: smstcpstream.h, the loops of read and write.
-- - Storage: smsstorage.h, smsstorage.cpp and smsdiskstorage.h, the messages as files: OnNotify for
--   the incoming ones, writeSMStoStorage for the outgoing ones.
-- - Gateway/Machine: the process of a BBS as a state machine, whose steps are the packets of the BBS,
--   the messages of phones that interrupt the wait, logins, and changes elsewhere.
-- - Deliver: sms_deliver_p2c.cpp and sms_deliver_c2p.cpp, the two processes that move the files
--   between the directories of the operators and those of the BBSes.
-- - Operator/Dx18: sms18dxprotocol.h and 18dx.h, and Operator/Api5168: sms5168protocol.h, the
--   protocols with two operators. Operator/Words is the order of the bytes in a DWORD.
--   Operator/Simulator is smstestchildprotocol.h, whose driver stands in for the first of them.
-- - Logger: smslogger.h, the text of the statement that writes to the log.
-- - ChildProtocol: smschildprotocol.h, childprotocol.h and smschildprivilegechecker.h, the older
--   protocol for one partner; ChildProtocol/Session is its OnAccept.
-- - Php: libsms/libsms.c, the function of PHP that sends a message through the child protocol;
--   Php/Login, Php/Message and Php/Session are its two packets at OnAccept of that protocol.
-- - Demo: libbbssms/demo, the queue in shared memory between the processes of a BBS (sendsms.c) and
--   the daemon that calls libbbssms for them (akasmsd.c); Demo/Remote is what the daemon does with
--   the gateway's packets. The processes are modelled one after the other, as the semaphore means
--   them to run.
-- - Journey: how the processes fit together: the storage behind the gateway and behind the operator's
--   process, and `Send` of each as what OnNotify of the storage calls.
-- - Common: C strings, decimal numbers, the return codes, lists and integers.
-- - Tests: sample services, and runs of the model on them.
--
-- An operation is a function from the state of the process to an outcome: a value with the new
-- state, the end of the process, or a fault, which is an access outside a buffer. Strings and
-- memory are lists of bytes. Numbers of machine words are natural numbers with the wrap-around
-- written out; int, long, time_t and pointers have 32 bits. A query in SQL is the key that its
-- where clause compares, and a statement that changes a table is a value of the type Statement, so
-- the quoting of strings inside of SQL is modelled for the log only (Logger). Memory that is not
-- freed is not modelled either. Where `new` throws in Send of Operator/Dx18, the model stops as for
-- the end of the process: what a handler further out makes of it is not followed. What `memcpy`
-- does to areas that overlap (getbuf of Demo) is a parameter. The printing of a number has ten
-- digits, enough for every 32-bit integer. The loop of a session has no end of its own: `serve`
-- runs a given number of rounds and says so when the session goes on after them. The loops of the
-- stream and of OnNotify follow the list of what the system answers.
--
-- A message of a phone goes from the operator (OnAccept of Operator/Dx18, or `process` of
-- Operator/Api5168) through a storage (writeSMStoStorage of Storage) into a file, which the
-- process of Deliver gives to the directory of a BBS, whose gateway passes it on (Send of
-- Gateway/Deliver). A message of a BBS goes the other way: sendSMS of Gateway/Billing, the
-- storage, Deliver, and the `Send` of an operator's protocol.
--
-- The loops that wait for packets take a number of rounds, as `serve` does: `receive` of
-- Operator/Api5168, `serve` of ChildProtocol/Session, and `read_text` of Operator/Simulator. The
-- `redo` of a read in the child protocol takes a number of tries, and says so when it is still
-- reading after them.
--
-- Not modelled: the acceptance of connections and their processes (Run), the registration of
-- signals, the filter for bad words (mgrep.cpp, a copy of another program's source), the protocols
-- for CMPP (smscmppprotocol.cpp and smscmpp2protocol.h do not compile as they stand), the daemon,
-- and of the demonstrations the dialogues and the attachment of the memory. The
-- queries of Deliver are taken for names without quotes.
mod Common
pub mod Wire
pub mod Sms
pub mod Gateway
pub mod Client
pub mod Stream
pub mod Storage
pub mod Deliver
pub mod Logger
pub mod Operator
pub mod ChildProtocol
pub mod Php
pub mod Demo
pub mod Journey
pub mod Clearer
mod Tests
