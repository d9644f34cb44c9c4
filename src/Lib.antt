-- ===== src/Lib.antt =====
-- A model of the SHRD simulator: a flash translation layer for a two-core SSD with SHRD (a host that
-- writes random pages to a log in sequence, and remaps them later), its host and its test driver.
--
-- The parts, from the host down: the host (SHRD_host.cpp), which the driver (SHRD_sim.cpp) calls,
-- calls HIL_WriteLPN and HIL_ReadLPN of the host interface layer (HILWrapper.cpp), which queues 4 KB
-- writes in 8 KB buffers and hands these to the FTL of the core that the page belongs to
-- (ATLWrapper.cpp), which writes through the NAND file layer (VFLWrapper.cpp).
--
-- Base, Config: shared names, tests and list lemmas; the constants of the headers, with the values
--   that the build of main() has (RSP_Header.h, ATLWrapper.h, HILWrapper.h, SHRD_host.h).
-- Ring: the circular doubly linked lists that all parts keep by the same code (insert_buff and
--   del_buff of HILWrapper.cpp; insert_twrite_entry, insert_remap_entry, insert_bl_front,
--   insert_bl_tail, del_blk_from_list and the others of ATLWrapper.cpp), on an explicit memory.
-- Hil: HILWrapper.cpp. A queue is a list of buffers there, head first. The FTL is a parameter: a
--   function of the calls made so far, the present one last, which gives the answer of RSP_WritePage and the buffers that
--   the FTL gives back by HIL_BuffFree during the call. The loops run on fuel: the number of
--   queued requests and one more is enough, since each round sends at least one of them.
-- Host: SHRD_host.cpp. do_twrite is pack and send_twrite, __do_remap is remap_window, do_remap and
--   HOST_gen_random_workload have their names, the checks are verify_lpn and verify_random_workload.
--   The pages that the host gives to HIL_WriteLPN are a list; rand() and RSP_ReadPage are
--   parameters. The packing loop runs on fuel of 130 rounds: it packs at most 128 pages, and each
--   round packs one.
-- Vfl: VFLWrapper.cpp, with the two files of a core as functions from positions to bytes.
-- Atl: parts of ATLWrapper.cpp. Cache: the cache of the page map (get_map_page, get_vpn and set_vpn).
--   map_read and map_write copy a page between a slot and NAND there, and the map log is a function.
--   Vpn: the address macros and the codes of pages in write buffers. ReadPage: RSP_ReadPage. Buffer:
--   the insertion of a page into a write buffer, the overwrite of one that is there, and the program
--   of a full buffer, in write_page.
--   Write: the three assign_new_write_vpn, flush_bank with the metadata, and the blocks that RSP_Open
--   gives to a bank; Write/Nand has the rule that the NAND sets, that a block is programmed page after
--   page after its erase. These parts take the page map as a function, which Cache implements.
--   Victim: get_vt_vblock. Collect: decrease_vcount_of_vt_block and erase_victim_block. Headers:
--   twrite_header_handler, find_twrite_oLPN and find_twrite_entry_of_tLPN; the number of the core
--   (THIS_CORE) is an argument, any unsigned number: the build has 2 ^ 32 - 1 for 0 - 1. Ftl: the pages of a core as writes, remaps and the garbage collection
--   share them, with check_n_invalid_GCbuff. Remap: remap_handler, do_remap and __do_remap; the
--   loops run over the pairs of a header and over the headers that wait, and need no fuel; a block leaves
--   the list of its log (del_blk_from_list) only if it is there, and fails otherwise. WritePage:
--   write_page as a whole, with what it issues to the NAND; what the read of the rest of a page puts
--   into the host's buffer is a parameter. WritePage/Dispatch: RSP_WritePage, with what each half of
--   the host's buffer is as a header of a twrite and as one of a remap.
-- Sim: SHRD_sim.cpp, the parser of a trace line (get_CMD_LINE) on the tokens of strtok. The loop of
--   run_shrd_workload is workload in Host.
--
-- Not modelled: most of the garbage collection of ATLWrapper.cpp, its red-black tree and its
-- recovery; get_CMD and the other loops of SHRD_sim.cpp. The models of assign_new_write_vpn and
-- RSP_WritePage stop at the calls of the garbage collection, where no block is free, and where a bank
-- has at most 8 free blocks. The wrappers of memset and memcpy (RSP_OSAL.cpp), the counters
-- of the profile and the printing are left out.
pub mod Atl
pub mod Base
pub mod Config
pub mod Hil
pub mod Host
pub mod Ring
pub mod Sim
pub mod Vfl
