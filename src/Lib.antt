-- ===== src/Lib.antt =====
-- Formal models of ods2, a program that reads and writes Files-11 (ODS-2) volumes.
--
-- The parts of the program and the modules that model them:
--
-- Base holds the shared vocabulary: native numbers, lists as byte slices, Go's (value, error)
-- pairs as `Result`, bit operations and little-endian words. A w-bit integer is a number, and each
-- place where the source can wrap around is written out with u8, u16 or u32.
--
-- Ondisk models package ondisk, the byte layouts. Block is checksum.go and endian.go; Fid, Uic,
-- RecAttr, Padded, HomeBlock, StorageControlBlock and FileHeader are the structures and their
-- decoders (for Fid, Uic, RecAttr and FileHeader, encoders too); Retrieval is retrieval.go, the
-- extents in a header's map area, Ident ident.go and Acl acl.go, its other areas, all both ways;
-- FileHeader.Encode is EncodeFileHeader of fileheader.go, which lays the areas out; Bitmap is
-- bitmap.go; DirEntry and DirBlock are directory.go, with Go's maps and sorts as lists and
-- insertion sorts; DirEntry.Counts says what it is for two lists to have the same entries, each as
-- often.
--
-- Volume models package volume. Device has the records of a container, a device and an open file;
-- a container is the function that its ReadBlock is (diskimage/container.go). Extents and File are
-- volume/file.go, from virtual block numbers to logical ones and along the chain of extension
-- headers; Mount is volume/volume.go, from the search for the home block to OpenFID, which gives
-- the file that its accessors share where accessedFile of volume/access.go has one; StorageBitmap
-- is volume/bitmap.go and IndexBitmap volume/indexbitmap.go, the caches of the two allocation
-- bitmaps and their searches; Directory is volume/directory.go, listing and looking names up,
-- Directory.Pack its packing of entries into blocks and Directory.Update its Insert, Remove and
-- SetNameVersionLimit; Allocation and Headers are volume/writeheader.go, the allocation of extents
-- and the writing of headers to their slots. The container's WriteBlock is an argument of these.
--
-- Filespec models filespec/wildcard.go and filespec/version.go. A string is the list of its bytes,
-- and upper case is that of ASCII.
--
-- Rms models package rms. Length and Reader are rms/reader.go, BlockStream rms/blockstream.go,
-- Writer rms/writer.go and Vfc rms/vfc.go; Frames says what a record is in the bytes of a file.
-- BlockFile is the interface of an open file that the writer uses: WriteBlock, ReadBlock,
-- SetEndOfFile and CloseWithFinalByte of volume/writefile.go and volume/access.go, with what they
-- promise as laws. Volume.WriteFile models these functions on a file of a volume, whose header a
-- close rewrites through Volume.Headers; Extend (volume/writeheader.go) and the container's
-- WriteBlock are arguments. Volume.Versions has which versions a limit or PURGE takes, with
-- DeleteFile (volume/delete.go) as an argument.
--
-- Interaction: Mount finds a device's home block, reads INDEXF.SYS's header behind the index
-- bitmap, and builds its file; every other header is found through that file's extents.
-- FindFreeSlot reads header slots through it too. Allocation works on the two bitmaps alone. A
-- change of a directory packs all its entries anew, writes the blocks through its extents, and
-- rewrites its header, whose areas are read and encoded again, through INDEXF.SYS's extents; a
-- directory that needs more blocks gets an extent from the storage bitmap first. A Writer hands
-- full blocks to the file and keeps the rest; closing it, or a shared Put, writes the last block
-- and moves the end of file, which is where a Reader of the file stops.
--
-- Fuel: a map area is decoded with its number of words as fuel, and a directory block with 86
-- rounds, since an entry takes a word and a record six bytes at least. The chain of extension
-- headers has no bound in the source, so its fuel is an argument, in mount and open_fid too. A
-- stream fetches a byte at least in each round, so the number of bytes asked for is enough; Next
-- scans with a round for each byte of the file and skips marks with one for each block; append
-- writes a block for 512 bytes, and its fuel is the number of bytes. allocateExtents takes a
-- cluster at least in each round, so the clusters wanted are enough; an entry of an access control
-- list takes a byte, so the area's length is; and the packing of a name's entries writes a block
-- whenever some are left, so one more than their number is. The other loops recurse on a list or
-- on the number of rounds left.
--
-- Not modelled: host files and printing, the commands under cmd/, package vmstime (a time is its
-- 64 bits), protection masks in text, the encoders of home blocks, writing bitmaps back, the
-- making and extending of files, deleting and renaming them, making directories, and how accessors
-- come to share a file and cease to (Access and Deaccess of volume/access.go). What a writer or a
-- change of a directory leaves after an error is not modelled, since the source promises nothing
-- of it.
pub mod Base
pub mod Ondisk
pub mod Volume
pub mod Filespec
pub mod Rms
